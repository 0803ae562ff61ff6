-- ===== src/Idempotency/Claims.antt =====
-- Whole histories of calls: the answers are those of the specification, and a key is claimed once in
-- a window.
use message_broker_patterns.Base.{
  String, ◌≡◌, refl, sym, ◌∙◌, Bool, true, false, none, List, [], ◌∷◌, arith, eq_iff, if◌then◌else◌,
}
use message_broker_patterns.Base.Int.{ℤ, ◌+ℤ◌, ◌≤ℤ◌, ltb_ℤ, +ℤ_parts}
use message_broker_patterns.Base.Dict.{lookup}
use message_broker_patterns.Base.Exec.{ok}
use message_broker_patterns.Idempotency.{
  InMemoryIdempotencyStore, live_at, is_live, store_key, is_processed, mark_processed, mark_if_new,
  new_store,
}
use message_broker_patterns.Idempotency.Refinement.{
  Memory, remember, Call, check, mark, claim, answer, spec_answer, Agrees, is_live-Agrees,
  store_key-Agrees, wait-Agrees,
}

verdict_now :
    (ttl now : ℤ) (key : String) (s : InMemoryIdempotencyStore) (m : Memory)
    → Agrees ttl now s m
    → live_at (lookup key s.expiry) now ≡ live_at (m key) now
verdict_now ttl now key s m h = h.verdict key now (omega arith)

-- One call: the same answer, and agreement afterwards.
answer-Agrees :
    (ttl now : ℤ) (c : Call) (s : InMemoryIdempotencyStore) (m : Memory)
    → Agrees ttl now s m
    → ((answer c now s).0 ≡ (spec_answer ttl c now m).0)
      × Agrees ttl now (answer c now s).1 (spec_answer ttl c now m).1
unfolding answer spec_answer is_processed mark_processed
answer-Agrees ttl now (check key) s m h =
    (unfold is_live in verdict_now ttl now key s m h, is_live-Agrees ttl now key s m h)
answer-Agrees ttl now (mark key) s m h = (refl, store_key-Agrees ttl now key s m h)
answer-Agrees ttl now (claim key) s m h = claimed (live_at (lookup key s.expiry) now) refl
  where
    after : Bool → Bool × InMemoryIdempotencyStore
    after live =
        let s' = (is_live key now s).1 in if live then (false, s') else (true, store_key key now s')

    spec_after : Bool → Bool × Memory
    spec_after live = if live then (false, m) else (true, remember key (now +ℤ ttl) m)

    settled :
        (b : Bool) → ((after b).0 ≡ (spec_after b).0) × Agrees ttl now (after b).1 (spec_after b).1
    settled true = (refl, is_live-Agrees ttl now key s m h)
    settled false = (
      refl,
      store_key-Agrees ttl now key (is_live key now s).1 m (is_live-Agrees ttl now key s m h),
    )

    claimed :
        (b : Bool)
        → live_at (lookup key s.expiry) now ≡ b
        → ((mark_if_new key now s).0 ≡ (spec_after (live_at (m key) now)).0)
          × Agrees ttl now (mark_if_new key now s).1 (spec_after (live_at (m key) now)).1
    claimed b e =
        unfold mark_if_new is_live in
        rw (← verdict_now ttl now key s m h) (settled (live_at (lookup key s.expiry) now))

-- A history of calls, each with the clock's reading, which does not go back.
abbrev pub Ordered : ℤ → List (ℤ × Call) → Type 0
Ordered now [] = Unit
Ordered now ((t, c) ∷ calls) = (now ≤ℤ t) × Ordered t calls

unfoldable pub run :
    List (ℤ × Call) → InMemoryIdempotencyStore → List Bool × InMemoryIdempotencyStore
run [] s = ([], s)
run ((t, c) ∷ calls) s =
    let (a, s') = answer c t s in let (as', s'') = run calls s' in (a ∷ as', s'')

unfoldable pub spec_run : ℤ → List (ℤ × Call) → Memory → List Bool × Memory
spec_run ttl [] m = ([], m)
spec_run ttl ((t, c) ∷ calls) m =
    let (a, m') = spec_answer ttl c t m in let (as', m'') = spec_run ttl calls m' in (a ∷ as', m'')

run-Agrees :
    (ttl now : ℤ) (calls : List (ℤ × Call)) (s : InMemoryIdempotencyStore) (m : Memory)
    → Ordered now calls
    → Agrees ttl now s m
    → (run calls s).0 ≡ (spec_run ttl calls m).0
unfolding run spec_run
run-Agrees ttl now [] s m o h = refl
run-Agrees ttl now ((t, c) ∷ calls) s m o h =
    let step = answer-Agrees ttl t c s m (wait-Agrees ttl now t o.0 s m h) in
    let rest = run-Agrees ttl t calls (answer c t s).1 (spec_answer ttl c t m).1 o.1 step.1 in
    λ i. step.0 i ∷ rest i

-- A store that has just been made.
abbrev pub fresh : ℤ → InMemoryIdempotencyStore
fresh ttl = record { ttl = ttl; expiry = [] }

abbrev pub nothing : Memory
nothing key = none

fresh-Agrees : (ttl now : ℤ) → Agrees ttl now (fresh ttl) nothing
fresh-Agrees ttl now = record { same_ttl = refl; is_dict = tt; verdict = λ j t le. refl }

made_fresh : (ttl : ℤ) (s : InMemoryIdempotencyStore) → new_store ttl ≡ ok s → s ≡ fresh ttl
unfolding new_store
made_fresh ttl s h = ground arith

-- For every history of calls of a new store at instants that do not go back, each answer is that of
-- the specification that never forgets an entry: dropping expired entries on reads and purging them
-- on writes cannot be observed.
pub run-eq-spec_run :
    (ttl now : ℤ) (calls : List (ℤ × Call)) (s : InMemoryIdempotencyStore)
    → new_store ttl ≡ ok s
    → Ordered now calls
    → (run calls s).0 ≡ (spec_run ttl calls nothing).0
run-eq-spec_run ttl now calls s made o =
    run-Agrees ttl now calls s nothing o (rw (made_fresh ttl s made) (fresh-Agrees ttl now))

-- The calls stand between two instants, in order.
abbrev pub Between : ℤ → List (ℤ × Call) → ℤ → Type 0
Between now [] end = now ≤ℤ end
Between now ((t, c) ∷ calls) end = (now ≤ℤ t) × Between t calls end

run-keeps-Agrees :
    (ttl now end : ℤ) (calls : List (ℤ × Call)) (s : InMemoryIdempotencyStore) (m : Memory)
    → Between now calls end
    → Agrees ttl now s m
    → Agrees ttl end (run calls s).1 (spec_run ttl calls m).1
unfolding run spec_run
run-keeps-Agrees ttl now end [] s m o h = wait-Agrees ttl now end o s m h
run-keeps-Agrees ttl now end ((t, c) ∷ calls) s m o h =
    run-keeps-Agrees ttl t end calls (answer c t s).1 (spec_answer ttl c t m).1 o.1
      (answer-Agrees ttl t c s m (wait-Agrees ttl now t o.0 s m h)).1

-- A key that is held until after `end` stays so under any calls.
held_step :
    (ttl end : ℤ) (key : String) (c : Call) (t : ℤ) (m : Memory)
    → ltb_ℤ end (t +ℤ ttl) ≡ true
    → live_at (m key) end ≡ true
    → live_at ((spec_answer ttl c t m).1 key) end ≡ true
unfolding spec_answer
held_step ttl end key (check k) t m window h = h
held_step ttl end key (mark k) t m window h = ground (arith, eq_iff k key)
held_step ttl end key (claim k) t m window h = ground (arith, eq_iff k key)

later_window :
    (ttl start t end : ℤ)
    → start ≤ℤ t
    → ltb_ℤ end (start +ℤ ttl) ≡ true
    → ltb_ℤ end (t +ℤ ttl) ≡ true
later_window ttl start t end le h = ground (arith, +ℤ_parts start ttl, +ℤ_parts t ttl)

held_run :
    (ttl now end : ℤ) (key : String) (calls : List (ℤ × Call)) (m : Memory)
    → Between now calls end
    → ltb_ℤ end (now +ℤ ttl) ≡ true
    → live_at (m key) end ≡ true
    → live_at ((spec_run ttl calls m).1 key) end ≡ true
unfolding spec_run
held_run ttl now end key [] m o window h = h
held_run ttl now end key ((t, c) ∷ calls) m o window h =
    let w = later_window ttl now t end o.0 window in
    held_run ttl t end key calls (spec_answer ttl c t m).1 o.1 w (held_step ttl end key c t m w h)

-- The winner of a claim holds the key in the specification until the window ends.
won :
    (ttl t end : ℤ) (key : String) (m : Memory)
    → (spec_answer ttl (claim key) t m).0 ≡ true
    → ltb_ℤ end (t +ℤ ttl) ≡ true
    → live_at ((spec_answer ttl (claim key) t m).1 key) end ≡ true
unfolding spec_answer
won ttl t end key m h w = ground (arith, eq_iff key key)

refused :
    (ttl t : ℤ) (key : String) (m : Memory)
    → live_at (m key) t ≡ true
    → (spec_answer ttl (claim key) t m).0 ≡ false
unfolding spec_answer
refused ttl t key m h = rw h

second_claim :
    (ttl first second : ℤ) (key : String) (between : List (ℤ × Call)) (s : InMemoryIdempotencyStore)
    (m : Memory)
    → Agrees ttl first s m
    → Between first between second
    → ltb_ℤ second (first +ℤ ttl) ≡ true
    → (answer (claim key) first s).0 ≡ true
    → (answer (claim key) second (run between (answer (claim key) first s).1).1).0 ≡ false
second_claim ttl first second key between s m a o window claimed =
    let step = answer-Agrees ttl first (claim key) s m a in
    let m' = (spec_answer ttl (claim key) first m).1 in
    let s' = (answer (claim key) first s).1 in
    let held =
      held_run ttl first second key between m' o window
        (won ttl first second key m (sym step.0 ∙ claimed) window) in
    let end = run-keeps-Agrees ttl first second between s' m' o step.1 in
    (answer-Agrees ttl second (claim key) (run between s').1 (spec_run ttl between m').1 end).0
    ∙ refused ttl second key (spec_run ttl between m').1 held

-- Once a claim of a key has succeeded on a store with any history, every later claim of the key
-- before `ttl` has passed is refused, whatever calls on whatever keys stand in between.
pub one_claim :
    (ttl now first second : ℤ) (key : String) (before between : List (ℤ × Call))
    (s : InMemoryIdempotencyStore)
    → new_store ttl ≡ ok s
    → Between now before first
    → Between first between second
    → ltb_ℤ second (first +ℤ ttl) ≡ true
    → (mark_if_new key first (run before s).1).0 ≡ true
    → (mark_if_new key second (run between (mark_if_new key first (run before s).1).1).1).0 ≡ false
unfolding answer
one_claim ttl now first second key before between s made o o' window claimed =
    second_claim ttl first second key between (run before s).1 (spec_run ttl before nothing).1
      (run-keeps-Agrees ttl now first before s nothing o
        (rw (made_fresh ttl s made) (fresh-Agrees ttl now)))
      o' window claimed
