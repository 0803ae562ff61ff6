-- ===== src/Idempotency/Shared/Refinement.antt =====
-- The shared store against its specification: a list of keys with one deadline, in which a call is
-- one step.
use message_broker_patterns.Base.{
  ℕ, ◌+◌, ◌≤◌, String, ◌≡◌, refl, sym, ap, Bool, true, false, not, ◌||◌, Option, none, some, List,
  [], ◌∷◌, arith, str_eq, leb, if◌then◌else◌,
}
use message_broker_patterns.Idempotency.Shared.Commands.{
  Window, live, has, added, expired, with_deadline,
}

-- The keys of the present window, which is over from `until` on.
pub record Remembered : Type 0 where
  pub keys : List String
  pub until : ℕ

abbrev pub nothing : Remembered
nothing = record { keys = []; until = 0 }

abbrev pub mem : String → List String → Bool
mem k [] = false
mem k (j ∷ keys) = str_eq j k || mem k keys

unfoldable pub spec_check : String → ℕ → Remembered → Bool
spec_check k now m = if leb m.until now then false else mem k m.keys

-- A claim after the window opens the next one, whose length, in milliseconds, is the
-- claimant's.
unfoldable pub spec_claim : ℕ → String → ℕ → ℕ → Remembered → Bool × Remembered
spec_claim ttl k now later m =
    if leb m.until now
    then (true, record { keys = k ∷ []; until = later + ttl })
    else (not (mem k m.keys), record m { keys = k ∷ m.keys })

-- The set that a command at `now` finds, and the specification.
abbrev pub AgreesAt : ℕ → Option Window → Remembered → Type 0
AgreesAt now none m = m.until ≤ now
AgreesAt now (some w) m =
    (w.deadline ≡ some m.until)
    × (leb m.until now ≡ false)
    × ((k : String) → w.members k ≡ mem k m.keys)

abbrev pub Agrees : ℕ → Option Window → Remembered → Type 0
Agrees now w m = AgreesAt now (live now w) m

pub checked :
    (k : String) (now : ℕ) (w : Option Window) (m : Remembered)
    → AgreesAt now w m
    → has k w ≡ spec_check k now m
unfolding spec_check
checked k now none m h = ground arith
checked k now (some w) m h = ground (arith, h.1, h.2 k)

opened :
    (k : String) (later d : ℕ)
    → Agrees later
        (some (record { members = λ x. str_eq k x; deadline = some d }))
        (record { keys = k ∷ []; until = d })
opened k later d = go (leb d later) refl
  where
    go :
        (b : Bool)
        → leb d later ≡ b
        → AgreesAt later
            (if b then none else some (record { members = λ x. str_eq k x; deadline = some d }))
            (record { keys = k ∷ []; until = d })
    go true h = ground arith
    go false h = (refl, h, λ x. ground arith)

le-leb : (a b : ℕ) → a ≤ b → leb a b ≡ true
le-leb a b h = ground arith

pub claimed :
    (ttl : ℕ) (k : String) (now later : ℕ) (v : Option Window) (m : Remembered)
    → AgreesAt now v m
    → (not (has k v) ≡ (spec_claim ttl k now later m).0)
      × Agrees later
          (with_deadline (later + ttl) (live later (some (added k v))))
          (spec_claim ttl k now later m).1
unfolding spec_claim
claimed ttl k now later none m h = rw (le-leb m.until now h) (refl, opened k later (later + ttl))
claimed ttl k now later (some w) m h = rw (h.1, h.0) (ap not (h.2 k), go (leb m.until later) refl)
  where
    w' : Window
    w' = record { members = λ x. str_eq k x || w.members x; deadline = some m.until }

    go :
        (b : Bool)
        → leb m.until later ≡ b
        → Agrees later
            (with_deadline (later + ttl) (if b then none else some w'))
            (record m { keys = k ∷ m.keys })
    go true e = ground arith
    go false e = rw e (refl, e, λ x. ap (λ b. str_eq k x || b) (h.2 x))

-- Time passes.
pub wait-Agrees :
    (start now : ℕ) (w : Option Window) (m : Remembered)
    → start ≤ now
    → Agrees start w m
    → Agrees now w m
wait-Agrees start now none m le h = omega arith
wait-Agrees start now (some w) m le h = go (expired start w.deadline) refl
  where
    over : (d : Option ℕ) → expired start d ≡ true → expired now d ≡ true
    over none e = e
    over (some d) e = ground arith

    later :
        (b : Bool)
        → leb m.until now ≡ b
        → w.deadline ≡ some m.until
        → ((k : String) → w.members k ≡ mem k m.keys)
        → AgreesAt now (if b then none else some w) m
    later true e d k = ground arith
    later false e d k = (d, e, k)

    go : (b : Bool) → expired start w.deadline ≡ b → Agrees now (some w) m
    go true e = rw (over w.deadline e) (past (rw e at h))
      where
        past : m.until ≤ start → m.until ≤ now
        past h = omega arith
    go false e = present (rw e at h)
      where
        present : AgreesAt start (some w) m → Agrees now (some w) m
        present h = later (expired now w.deadline) (sym (ap (expired now) h.0)) h.0 h.2
