-- ===== src/Chaos/OnCall.antt =====
-- An injector armed by `on_call`: which calls it makes faulty.
use message_broker_patterns.Base.{
  ℕ, suc, ◌+◌, ◌≡◌, refl, Bool, true, false, ◌&&◌, List, [], ◌∷◌, length, ltb, leb, ◌==◌,
  if◌then◌else◌, arith,
}
use message_broker_patterns.Base.Exec.{Exec, Result}
use message_broker_patterns.Chaos.{
  Random, on_call, should_fire, Fault, Injector, fire, fire_or_pass, invoke, invoke_all,
}

-- The calls made one after the other on the world itself, with no injector: `call k` is the k-th.
abbrev pub run_calls : {W A B : Type 0} → (ℕ → A → Exec W B) → ℕ → List A → W → List (Result B) × W
run_calls call k [] w = ([], w)
run_calls call k (a ∷ xs) w =
    let (r, w') = call k a w in let (rs, w'') = run_calls call (suc k) xs w' in (r ∷ rs, w'')

window :
    (c n len f : ℕ)
    → f + (if suc c == n then 1 else 0) + (if ltb (suc c) n && leb n (suc c + len) then 1 else 0)
      ≡ f + (if ltb c n && leb n (c + suc len) then 1 else 0)
window c n len f = ground arith

module _ (rand : Random) {W A B : Type 0} (sleep : rand.Float → W → W) where
  -- The n-th call is the faulty one.
  abbrev pub faulty_at : ℕ → Fault rand → (A → Exec W B) → ℕ → A → Exec W B
  faulty_at n fault wrapped k = if k == n then fire rand sleep fault wrapped else wrapped

  invoke-on_call :
      (n : ℕ) (fault : Fault rand) (wrapped : A → Exec W B) (a : A) (s : Injector rand W)
      → invoke rand sleep (on_call n) fault wrapped a s ≡ (
          let (r, w) = faulty_at n fault wrapped (suc s.calls) a s.world in
          (
            r,
            record {
              calls = suc s.calls;
              fires = s.fires + (if suc s.calls == n then 1 else 0);
              rng = s.rng;
              world = w;
            },
          ))
  unfolding invoke should_fire fire_or_pass
  invoke-on_call n fault wrapped a s = go (suc s.calls == n)
    where
      go :
          (b : Bool)
          → fire_or_pass rand sleep b fault wrapped a (record s { calls = suc s.calls }) ≡ (
              let (r, w) = (if b then fire rand sleep fault wrapped else wrapped) a s.world in
              (
                r,
                record {
                  calls = suc s.calls;
                  fires = s.fires + (if b then 1 else 0);
                  rng = s.rng;
                  world = w;
                },
              ))
      go true = refl
      go false = ground arith

  -- With `on_call = n`, an injector that has already been called `calls` times gives the results and
  -- leaves the world of the wrapped calls, but that the n-th call since its construction runs the
  -- fault, whatever any of them raises; it counts each call, counts a fire if the n-th is among
  -- these, and draws nothing from the random stream.
  pub invoke_all-on_call :
      (n : ℕ) (fault : Fault rand) (wrapped : A → Exec W B) (xs : List A) (s : Injector rand W)
      → invoke_all rand sleep (on_call n) fault wrapped xs s ≡ (
          let (rs, w) = run_calls (faulty_at n fault wrapped) (suc s.calls) xs s.world in
          (
            rs,
            record {
              calls = s.calls + length xs;
              fires = s.fires + (if ltb s.calls n && leb n (s.calls + length xs) then 1 else 0);
              rng = s.rng;
              world = w;
            },
          ))
  unfolding invoke_all
  invoke_all-on_call n fault wrapped [] s = ground (arith, window s.calls n 0 s.fires)
  invoke_all-on_call n fault wrapped (a ∷ xs) s =
      rw (invoke-on_call n fault wrapped a s, invoke_all-on_call n fault wrapped xs)
        (ground (arith, window s.calls n (length xs) s.fires))
