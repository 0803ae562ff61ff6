-- ===== src/Idempotency/Shared/History.antt =====
-- Whole histories of calls of the shared store: the answers are those of the specification.
use message_broker_patterns.Base.{
  ℕ, ◌+◌, ◌≤◌, String, ◌≡◌, refl, sym, ◌∙◌, subst, Bool, true, false, not, Option, none, some, List,
  [], ◌∷◌, arith, if◌then◌else◌,
}
use message_broker_patterns.Base.Exec.{
  Exec, Result, ok, err, pure, Returns, Returns-and_then, Returns-imp, and_then, ◌>>=◌, ◌>>◌,
}
use message_broker_patterns.Idempotency.Shared.{
  RedisIdempotencyStore, mark_if_new, mark_processed, is_processed,
}
use message_broker_patterns.Idempotency.Shared.Commands.{
  Client, Laws, Window, live, has, added, expired, with_deadline,
}
use message_broker_patterns.Idempotency.Shared.Calls.{mark_if_new-Returns, is_processed-Returns}
use message_broker_patterns.Idempotency.Shared.Refinement.{
  Remembered, nothing, spec_check, spec_claim, AgreesAt, Agrees, checked, claimed, wait-Agrees,
}

-- A call with the instants of its commands; a mark's answer, which the code drops, is `true`.
pub data Call : Type 0 where
  check : String → ℕ → Call
  mark : String → (now later : ℕ) → Call
  claim : String → (now later : ℕ) → Call

module _ (c : Client) (store : RedisIdempotencyStore) where
  abbrev nobody : c.State → c.State
  nobody s = s

  unfoldable pub answer : Call → Exec c.State Bool
  answer (check k now) = is_processed c store k now
  answer (mark k now later) = do mark_processed c store k now nobody later; pure true
  answer (claim k now later) = mark_if_new c store k now nobody later

  unfoldable pub run : List Call → Exec c.State (List Bool)
  run [] = pure []
  run (call ∷ calls) = do a ← answer call; as' ← run calls; pure (a ∷ as')

unfoldable pub spec_answer : ℕ → Call → Remembered → Bool × Remembered
spec_answer ttl (check k now) m = (spec_check k now m, m)
spec_answer ttl (mark k now later) m = (true, (spec_claim ttl k now later m).1)
spec_answer ttl (claim k now later) m = spec_claim ttl k now later m

unfoldable pub spec_run : ℕ → List Call → Remembered → List Bool
spec_run ttl [] m = []
spec_run ttl (call ∷ calls) m =
    let rest = spec_run ttl calls (spec_answer ttl call m).1 in (spec_answer ttl call m).0 ∷ rest

-- The instant at which a call ends, and a history in which the clock does not go back.
abbrev pub ended : Call → ℕ
ended (check k now) = now
ended (mark k now later) = later
ended (claim k now later) = later

abbrev pub Within : ℕ → Call → Type 0
Within start (check k now) = start ≤ now
Within start (mark k now later) = (start ≤ now) × (now ≤ later)
Within start (claim k now later) = (start ≤ now) × (now ≤ later)

abbrev pub Ordered : ℕ → List Call → Type 0
Ordered start [] = Unit
Ordered start (call ∷ calls) = Within start call × Ordered (ended call) calls

live-live : (now : ℕ) (w : Option Window) → live now (live now w) ≡ live now w
live-live now none = refl
live-live now (some w) = go (expired now w.deadline) refl
  where
    go :
        (b : Bool)
        → expired now w.deadline ≡ b
        → live now (if b then none else some w) ≡ (if b then none else some w)
    go true e = refl
    go false e = rw e refl

module _ {c : Client} (laws : Laws c) (store : RedisIdempotencyStore) where
  claim-Agrees :
      (k : String) (now later : ℕ) (s : c.State) (m : Remembered)
      → Agrees now (c.view s store.key) m
      → Returns (mark_if_new c store k now (λ t. t) later s) (λ a t.
        (a ≡ (spec_claim (c.milliseconds store.ttl) k now later m).0)
        × Agrees later (c.view t store.key) (spec_claim (c.milliseconds store.ttl) k now later m).1)
  claim-Agrees k now later s m h =
      let found = live now (c.view s store.key) in
      let stored = some (added k found) in
      let after = (spec_claim (c.milliseconds store.ttl) k now later m).1 in
      let step = claimed (c.milliseconds store.ttl) k now later found m h in
      Returns-imp (λ a t. (a ≡ not (has k found)) × Agrees later (c.view t store.key) after)
        (λ a t.
          (a ≡ (spec_claim (c.milliseconds store.ttl) k now later m).0)
          × Agrees later (c.view t store.key) after)
        (mark_if_new c store k now (λ t. t) later s)
        (mark_if_new-Returns laws store (λ w. w ≡ stored) (λ w. w ≡ stored)
          (λ w. Agrees later w after) k now later (λ t. t) s refl (λ t e. e)
          (λ w e.
            subst
              (λ u.
                Agrees later (with_deadline (later + c.milliseconds store.ttl) (live later u))
                  after)
              (sym e) step.1))
        (λ a t q. (q.0 ∙ step.0, q.1))

  answer-Agrees :
      (call : Call) (start : ℕ) (s : c.State) (m : Remembered)
      → Within start call
      → Agrees start (c.view s store.key) m
      → Returns (answer c store call s) (λ a t.
        (a ≡ (spec_answer (c.milliseconds store.ttl) call m).0)
        × Agrees
            (ended call)
            (c.view t store.key)
            (spec_answer (c.milliseconds store.ttl) call m).1)
  unfolding answer spec_answer mark_processed
  answer-Agrees (check k now) start s m o h =
      let there = wait-Agrees start now (c.view s store.key) m o h in
      Returns-imp
        (λ seen t.
          (seen ≡ has k (live now (c.view s store.key)))
          × (c.view t store.key ≡ live now (c.view s store.key)))
        (λ a t. (a ≡ spec_check k now m) × Agrees now (c.view t store.key) m)
        (is_processed c store k now s) (is_processed-Returns laws store k now s)
        (λ a t q. (
          q.0 ∙ checked k now (live now (c.view s store.key)) m there,
          subst (λ u. Agrees now u m) (sym q.1)
              (subst (λ u. AgreesAt now u m) (sym (live-live now (c.view s store.key))) there),
        ))
  answer-Agrees (mark k now later) start s m o h =
      dropped (mark_if_new c store k now (λ t. t) later s)
        (claim-Agrees k now later s m (wait-Agrees start now (c.view s store.key) m o.0 h))
    where
      dropped :
          (x : Result Bool × c.State)
          → Returns x (λ a t.
            (a ≡ (spec_claim (c.milliseconds store.ttl) k now later m).0)
            × Agrees later
                (c.view t store.key)
                (spec_claim (c.milliseconds store.ttl) k now later m).1)
          → Returns
              (and_then (λ _ t. (ok true, t)) (and_then {B = Unit {0}} (λ _ t. (ok tt, t)) x))
              (λ a t.
                (a ≡ true)
                × Agrees later
                    (c.view t store.key)
                    (spec_claim (c.milliseconds store.ttl) k now later m).1)
      dropped (ok a, t) q = (refl, q.1)
      dropped (err e, t) q = tt
  answer-Agrees (claim k now later) start s m o h =
      claim-Agrees k now later s m (wait-Agrees start now (c.view s store.key) m o.0 h)

  run-Agrees :
      (calls : List Call) (start : ℕ) (s : c.State) (m : Remembered)
      → Ordered start calls
      → Agrees start (c.view s store.key) m
      → Returns
          (run c store calls s)
          (λ answers _. answers ≡ spec_run (c.milliseconds store.ttl) calls m)
  unfolding run spec_run
  run-Agrees [] start s m o h = refl
  run-Agrees (call ∷ calls) start s m o h =
      Returns-and_then
        (λ a t.
          (a ≡ (spec_answer (c.milliseconds store.ttl) call m).0)
          × Agrees (ended call) (c.view t store.key)
              (spec_answer (c.milliseconds store.ttl) call m).1)
        (λ answers _. answers ≡ spec_run (c.milliseconds store.ttl) (call ∷ calls) m)
        (λ a. run c store calls >>= (λ answers. pure (a ∷ answers))) (answer c store call s)
        (answer-Agrees call start s m o.0 h)
        (λ a t q.
          Returns-and_then
            (λ answers _.
              answers
              ≡ spec_run (c.milliseconds store.ttl) calls
                  (spec_answer (c.milliseconds store.ttl) call m).1)
            (λ answers _. answers ≡ spec_run (c.milliseconds store.ttl) (call ∷ calls) m)
            (λ answers. pure (a ∷ answers)) (run c store calls t)
            (run-Agrees calls (ended call) t (spec_answer (c.milliseconds store.ttl) call m).1 o.1
              q.1)
            (λ answers _ e i. q.0 i ∷ e i))

  -- Over any history of calls of one process at instants that do not go back, on a server that holds
  -- no such set, the answers are those of the specification whose windows are as long as the ttl that
  -- the client sends, if all calls return.
  pub run-refines :
      (calls : List Call) (start : ℕ) (s : c.State)
      → Ordered start calls
      → live start (c.view s store.key) ≡ none
      → Returns
          (run c store calls s)
          (λ answers _. answers ≡ spec_run (c.milliseconds store.ttl) calls nothing)
  run-refines calls start s o empty = run-Agrees calls start s nothing o (rw empty (omega arith))
