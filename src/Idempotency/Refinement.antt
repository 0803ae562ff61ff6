-- ===== src/Idempotency/Refinement.antt =====
-- The store against a specification that never forgets an entry: dropping and purging expired
-- entries cannot be seen, as long as the clock does not go back.
use message_broker_patterns.Base.{
  String, ◌≡◌, refl, Bool, true, false, Option, none, some, [], ◌∷◌, arith, str_eq, eq_iff,
  if◌then◌else◌,
}
use message_broker_patterns.Base.Int.{ℤ, ◌+ℤ◌, ◌≤ℤ◌, ltb_ℤ}
use message_broker_patterns.Base.Dict.{
  Dict, IsDict, lookup, insert, erase, lookup-insert, lookup-erase,
}
use message_broker_patterns.Idempotency.{
  InMemoryIdempotencyStore, live_at, drop_expired, is_live, purge_expired, store_key, is_processed,
  mark_processed, mark_if_new,
}

purge-none :
    (now : ℤ) (j : String) (d : Dict ℤ) → lookup j d ≡ none → lookup j (purge_expired now d) ≡ none
unfolding purge_expired
purge-none now j [] h = refl
purge-none now j ((k, e) ∷ d) h = ground (arith, purge-none now j d, eq_iff k j)

pub purge-IsDict : (now : ℤ) (d : Dict ℤ) → IsDict d → IsDict (purge_expired now d)
unfolding purge_expired
purge-IsDict now [] h = tt
purge-IsDict now ((k, e) ∷ d) h = ground (arith, purge-IsDict now d h.1, purge-none now k d h.0)

pub insert-IsDict : (j : String) (v : ℤ) (d : Dict ℤ) → IsDict d → IsDict (insert j v d)
insert-IsDict j v [] h = (refl, tt)
insert-IsDict j v ((k, e) ∷ d) h =
    ground (arith, insert-IsDict j v d h.1, lookup-insert j k v d, eq_iff k j, eq_iff j k)

pub erase-IsDict : (j : String) (d : Dict ℤ) → IsDict d → IsDict (erase j d)
erase-IsDict j [] h = tt
erase-IsDict j ((k, e) ∷ d) h =
    ground (arith, erase-IsDict j d h.1, lookup-erase j k d, eq_iff k j, eq_iff j k)

-- At an instant that is not before the purge, a purged entry was dead anyway.
live-purge :
    (now t : ℤ) (j : String) (d : Dict ℤ)
    → IsDict d
    → now ≤ℤ t
    → live_at (lookup j (purge_expired now d)) t ≡ live_at (lookup j d) t
unfolding purge_expired
live-purge now t j [] h le = refl
live-purge now t j ((k, e) ∷ d) h le =
    ground (arith, live-purge now t j d h.1 le, eq_iff k j, purge-none now j d)

-- The specification: the instant until which each key is remembered, by its last mark.
abbrev pub Memory : Type 0
Memory = String → Option ℤ

abbrev pub remember : String → ℤ → Memory → Memory
remember key until m j = if str_eq key j then some until else m j

pub data Call : Type 0 where
  check : String → Call
  mark : String → Call
  claim : String → Call

-- The answer of a call; a mark returns nothing, which is taken as `true`.
unfoldable pub answer : Call → ℤ → InMemoryIdempotencyStore → Bool × InMemoryIdempotencyStore
answer (check key) now s = is_processed key now s
answer (mark key) now s = (true, mark_processed key now s)
answer (claim key) now s = mark_if_new key now s

unfoldable pub spec_answer : ℤ → Call → ℤ → Memory → Bool × Memory
spec_answer ttl (check key) now m = (live_at (m key) now, m)
spec_answer ttl (mark key) now m = (true, remember key (now +ℤ ttl) m)
spec_answer ttl (claim key) now m =
    if live_at (m key) now then (false, m) else (true, remember key (now +ℤ ttl) m)

-- From `now` on, store and specification give the same verdict on every key.
pub record Agrees (ttl now : ℤ) (s : InMemoryIdempotencyStore) (m : Memory) : Type 0 where
  pub same_ttl : s.ttl ≡ ttl
  pub is_dict : IsDict s.expiry
  pub verdict : (j : String) (t : ℤ) → now ≤ℤ t → live_at (lookup j s.expiry) t ≡ live_at (m j) t

module _ (ttl now later : ℤ) (passed : now ≤ℤ later) where
  trans_ℤ : (t : ℤ) → later ≤ℤ t → now ≤ℤ t
  trans_ℤ t h = omega arith

  -- Time passes.
  pub wait-Agrees :
      (s : InMemoryIdempotencyStore) (m : Memory) → Agrees ttl now s m → Agrees ttl later s m
  wait-Agrees s m h = record {
    same_ttl = h.same_ttl;
    is_dict = h.is_dict;
    verdict = λ j t le. h.verdict j t (trans_ℤ t le);
  }

-- A dropped entry was dead, and stays so.
dead : (e now t : ℤ) → ltb_ℤ now e ≡ false → now ≤ℤ t → ltb_ℤ t e ≡ false
dead e now t h le = ground arith

pub is_live-Agrees :
    (ttl now : ℤ) (key : String) (s : InMemoryIdempotencyStore) (m : Memory)
    → Agrees ttl now s m
    → Agrees ttl now (is_live key now s).1 m
unfolding is_live
is_live-Agrees ttl now key s m h = dropped (lookup key s.expiry) refl
  where
    dropped : (o : Option ℤ) → lookup key s.expiry ≡ o → Agrees ttl now (drop_expired o key now s) m
    dropped none e = h
    dropped (some x) e = kept (ltb_ℤ now x) refl
      where
        kept :
            (b : Bool)
            → ltb_ℤ now x ≡ b
            → Agrees ttl now (if b then s else record s { expiry = erase key s.expiry }) m
        kept true _ = h
        kept false gone = record {
          same_ttl = h.same_ttl;
          is_dict = erase-IsDict key s.expiry h.is_dict;
          verdict = λ j t le. ground (
            arith,
            lookup-erase key j s.expiry,
            eq_iff key j,
            h.verdict j t le,
            dead x now t gone le,
            e,
          );
        }

pub store_key-Agrees :
    (ttl now : ℤ) (key : String) (s : InMemoryIdempotencyStore) (m : Memory)
    → Agrees ttl now s m
    → Agrees ttl now (store_key key now s) (remember key (now +ℤ ttl) m)
unfolding store_key
store_key-Agrees ttl now key s m h = record {
  same_ttl = h.same_ttl;
  is_dict =
      insert-IsDict key (now +ℤ s.ttl) (purge_expired now s.expiry)
        (purge-IsDict now s.expiry h.is_dict);
  verdict = λ j t le.
      rw (h.same_ttl, lookup-insert key j (now +ℤ ttl) (purge_expired now s.expiry))
        (ground (arith, live-purge now t j s.expiry h.is_dict le, h.verdict j t le));
}
