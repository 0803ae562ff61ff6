-- ===== src/Idempotency/Shared/Rivals.antt =====
-- Processes that share the set: one claim of a key per window, however their commands interleave.
use message_broker_patterns.Base.{
  ℕ, ◌+◌, ◌≤◌, ◌<◌, String, ◌≡◌, refl, ◌∙◌, ap, true, false, not, Option, none, some, arith, eq_iff,
}
use message_broker_patterns.Base.Exec.{Returns, Returns-and_then, Returns-imp, and_then}
use message_broker_patterns.Base.Int.{ℤ}
use message_broker_patterns.Idempotency.Shared.Calls.{mark_if_new-Returns}
use message_broker_patterns.Idempotency.Shared.{RedisIdempotencyStore, mark_if_new}
use message_broker_patterns.Idempotency.Shared.Commands.{
  Client, Laws, Window, live, has, added, expired, with_deadline, or_deadline,
}

-- The set, if it is there, stays until after `end`.
abbrev pub Lasts : ℕ → Option Window → Type 0
Lasts end none = Unit
Lasts end (some w) = expired end w.deadline ≡ false

-- The key is in the set, which stays until after `end`.
abbrev pub Holds : String → ℕ → Option Window → Type 0
Holds m end none = ⊥
Holds m end (some w) = (w.members m ≡ true) × (expired end w.deadline ≡ false)

expired_later :
    (now end : ℕ) (d : Option ℕ) → now ≤ end → expired end d ≡ false → expired now d ≡ false
expired_later now end none le h = refl
expired_later now end (some d) le h = ground arith

live-Holds :
    (m : String) (now end : ℕ) (w : Option Window) → now ≤ end → Holds m end w → live now w ≡ w
live-Holds m now end none le h = absurd h
live-Holds m now end (some w) le h = rw (expired_later now end w.deadline le h.1)

added-Lasts :
    (k : String) (now end : ℕ) (w : Option Window)
    → Lasts end (live now w)
    → Holds k end (some (added k (live now w)))
added-Lasts k now end w h = go (live now w) h
  where
    go : (v : Option Window) → Lasts end v → Holds k end (some (added k v))
    go none h = (ground (arith, eq_iff k k), refl)
    go (some v) h = (ground (arith, eq_iff k k), h)

added-Holds :
    (m k : String) (now end : ℕ) (w : Option Window)
    → now ≤ end
    → Holds m end w
    → Holds m end (some (added k (live now w)))
added-Holds m k now end none le h = absurd h
added-Holds m k now end (some w) le h =
    rw (expired_later now end w.deadline le h.1) (ground (arith, h.0, eq_iff k m), h.1)

with_deadline-Holds :
    (m : String) (now end d : ℕ) (w : Option Window)
    → now ≤ end
    → end < d
    → Holds m end w
    → Holds m end (with_deadline d (live now w))
with_deadline-Holds m now end d none le lt h = absurd h
with_deadline-Holds m now end d (some w) le lt h =
    rw (expired_later now end w.deadline le h.1) (h.0, go w.deadline h.1)
  where
    go : (e : Option ℕ) → expired end e ≡ false → expired end (or_deadline d e) ≡ false
    go none h = ground arith
    go (some e) h = h

held_found :
    (m : String) (now end : ℕ) (w : Option Window)
    → now ≤ end
    → Holds m end w
    → has m (live now w) ≡ true
held_found m now end none le h = absurd h
held_found m now end (some w) le h = rw (expired_later now end w.deadline le h.1) h.0

-- The store of a process on the shared key.
abbrev pub on : String → ℤ → RedisIdempotencyStore
on key ttl = record { key = key; ttl = ttl }

-- The process marks at `now` and sends the deadline at `later`, so that it is after `end`.
abbrev pub Covers : ℕ → ℕ → ℕ → ℕ → Type 0
Covers end ttl now later = (now ≤ end) × (later ≤ end) × (end < later + ttl)

module _ {c : Client} (laws : Laws c) (key m : String) (end : ℕ) where
  -- What a process does on the server leaves the key in its set until after `end`.
  abbrev pub Keeps : (c.State → c.State) → Type 0
  Keeps others = (t : c.State) → Holds m end (c.view t key) → Holds m end (c.view (others t) key)

  -- A mark of any key by any process leaves the held key in the set, if its own deadline would be
  -- after `end` and what the others do between its two commands does so too.
  pub mark_if_new-Holds :
      (k : String) (ttl : ℤ) (now later : ℕ) (others : c.State → c.State) (s : c.State)
      → Covers end (c.milliseconds ttl) now later
      → Keeps others
      → Holds m end (c.view s key)
      → Returns
          (mark_if_new c (on key ttl) k now others later s)
          (λ won t. (won ≡ not (has k (live now (c.view s key)))) × Holds m end (c.view t key))
  mark_if_new-Holds k ttl now later others s span keeps held =
      mark_if_new-Returns laws (on key ttl) (Holds m end) (Holds m end) (Holds m end) k now later
        others s (added-Holds m k now end (c.view s key) span.0 held) keeps
        (λ w. with_deadline-Holds m later end (later + c.milliseconds ttl) w span.1 span.2)

  first_claim :
      (ttl : ℤ) (now later : ℕ) (others : c.State → c.State) (s : c.State)
      → Covers end (c.milliseconds ttl) now later
      → Keeps others
      → Lasts end (live now (c.view s key))
      → Returns
          (mark_if_new c (on key ttl) m now others later s)
          (λ won t. (won ≡ not (has m (live now (c.view s key)))) × Holds m end (c.view t key))
  first_claim ttl now later others s span keeps lasts =
      mark_if_new-Returns laws (on key ttl) (Holds m end) (Holds m end) (Holds m end) m now later
        others s (added-Lasts m now end (c.view s key) lasts) keeps
        (λ w. with_deadline-Holds m later end (later + c.milliseconds ttl) w span.1 span.2)

  second_claim :
      (ttl : ℤ) (now later : ℕ) (others : c.State → c.State) (s : c.State)
      → now ≤ end
      → Holds m end (c.view s key)
      → Returns (mark_if_new c (on key ttl) m now others later s) (λ won _. won ≡ false)
  second_claim ttl now later others s le held =
      Returns-imp (λ won t. (won ≡ not (has m (live now (c.view s key)))) × Unit {0})
        (λ won _. won ≡ false) (mark_if_new c (on key ttl) m now others later s)
        (mark_if_new-Returns laws (on key ttl) (λ _. Unit) (λ _. Unit) (λ _. Unit) m now later
          others s tt (λ _ _. tt) (λ _ _. tt))
        (λ won t q. q.0 ∙ ap not (held_found m now end (c.view s key) le held))

  -- Two processes claim the same key of one shared set. If the set that the first one finds lasts
  -- until after `end`, the first one's own deadline would be after `end`, and what all others do in
  -- the meantime keeps the key in the set, the second claim, at `end` or before, is refused if both
  -- calls return, whether or not the first one won.
  pub one_claim_in_window :
      (ttl ttl' : ℤ) (now later now' later' : ℕ) (others between others' : c.State → c.State)
      (s : c.State)
      → Covers end (c.milliseconds ttl) now later
      → now' ≤ end
      → Keeps others
      → Keeps between
      → Lasts end (live now (c.view s key))
      → Returns
          (and_then
            (λ _ t. mark_if_new c (on key ttl') m now' others' later' (between t))
            (mark_if_new c (on key ttl) m now others later s))
          (λ won _. won ≡ false)
  one_claim_in_window ttl ttl' now later now' later' others between others' s span le keeps kept
        lasts =
      Returns-and_then
        (λ won t. (won ≡ not (has m (live now (c.view s key)))) × Holds m end (c.view t key))
        (λ won _. won ≡ false)
        (λ _ t. mark_if_new c (on key ttl') m now' others' later' (between t))
        (mark_if_new c (on key ttl) m now others later s)
        (first_claim ttl now later others s span keeps lasts)
        (λ _ t q. second_claim ttl' now' later' others' (between t) le (kept t q.1))
