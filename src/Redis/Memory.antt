-- ===== src/Redis/Memory.antt =====
-- A server in memory: it shows that the assumptions on Redis can be met, and runs the tests. The id
-- of an entry is its position in the stream, from 1.
use mathlib.Core.Path.{fun_ext}
use message_broker_patterns.Base.{
  ℕ, suc, ◌+◌, String, ◌≡◌, ◌⊎◌, refl, sym, ap, ◌∙◌, Bool, true, false, ◌&&◌, Option, none, some,
  List, [], ◌∷◌, ◌++◌, length, take, drop, arith, str_eq, eq_iff, Bool-cases, inl, inr,
  if◌then◌else◌,
}
use message_broker_patterns.Base.Int.{ℤ, pos}
use message_broker_patterns.Base.Decimal.{str_int, parse_int}
use message_broker_patterns.Base.Decimal.RoundTrip.{parse_int-str_int}
use message_broker_patterns.Base.Exec.{Exec, ok, err, response_error}
use message_broker_patterns.Redis.View.{
  Fields, Entry, Server, id_of, cursor, with_entry, with_group, with_delivery, with_ack,
  with_member, fresh_entries, as_count,
}

pub record Mem : Type 0 where
  pub streams : String → List Fields
  pub groups : String → String → Bool
  pub delivered : String → String → ℕ
  pub owner : String → String → String → Option String
  pub members : String → String → Bool

abbrev pub empty : Mem
empty = record {
  streams = λ _. [];
  groups = λ _ _. false;
  delivered = λ _ _. 0;
  owner = λ _ _ _. none;
  members = λ _ _. false;
}

-- The entries behind the first `k`.
unfoldable pub number : ℕ → List Fields → List Entry
number k [] = []
number k (f ∷ fs) = (str_int (pos (suc k)), f) ∷ number (suc k) fs

abbrev pub view : Mem → Server
view m = record {
  entries = λ t. number 0 (m.streams t);
  delivered = m.delivered;
  owner = m.owner;
  members = m.members;
}

abbrev pub xadd : String → Fields → Exec Mem String
xadd stream f m = (
  ok (str_int (pos (suc (length (m.streams stream))))),
  record m { streams = λ t. if str_eq stream t then m.streams t ++ f ∷ [] else m.streams t },
)

abbrev pub after : Option ℤ → List Entry → List Entry
after (some (pos k)) es = drop k es
after _ es = []

abbrev pub xread : String → String → ℕ → Exec Mem (List Entry)
xread stream last n m = (ok (take n (after (parse_int last) (number 0 (m.streams stream)))), m)

abbrev pub create : Bool → String → String → Exec Mem Unit
create true stream group m =
    (err (response_error "BUSYGROUP Consumer Group name already exists"), m)
create false stream group m = (
  ok tt,
  record m {
    groups = λ t g. if str_eq stream t && str_eq group g then true else m.groups t g;
    delivered = (with_group stream group (view m)).delivered;
  },
)

abbrev pub xgroup_create : String → String → Exec Mem Unit
xgroup_create stream group m = create (m.groups stream group) stream group m

abbrev deliver : String → String → String → List Entry → Mem → Mem
deliver stream group consumer es m = record m {
  delivered = (with_delivery stream group consumer es (view m)).delivered;
  owner = (with_delivery stream group consumer es (view m)).owner;
}

abbrev pub xreadgroup_new : String → String → String → ℕ → Option ℕ → Exec Mem (List Entry)
xreadgroup_new stream group consumer n block m =
    let es = take n (fresh_entries stream group (view m)) in
    (ok es, deliver stream group consumer es m)

abbrev pub xack : String → String → String → Exec Mem ℕ
xack stream group id m = (ok 1, record m { owner = (with_ack stream group id (view m)).owner })

abbrev pub sadd : String → String → Exec Mem ℕ
sadd key member m = (
  ok (as_count (if m.members key member then false else true)),
  record m { members = (with_member key member (view m)).members },
)

number-append :
    (k : ℕ) (fs : List Fields) (f : Fields)
    → number k (fs ++ f ∷ []) ≡ number k fs ++ (str_int (pos (suc (k + length fs))), f) ∷ []
unfolding number
number-append k [] f = ap (λ j. (str_int (pos (suc j)), f) ∷ []) (omega arith)
number-append k (g ∷ fs) f =
    ap (λ es. (str_int (pos (suc k)), g) ∷ es)
      (number-append (suc k) fs f
        ∙ ap (λ j. number (suc k) fs ++ (str_int (pos (suc j)), f) ∷ []) (omega arith))

pub view-xadd :
    (stream : String) (f : Fields) (m : Mem)
    → view (xadd stream f m).1
      ≡ with_entry stream (str_int (pos (suc (length (m.streams stream)))), f) (view m)
view-xadd stream f m =
    ap (λ e. record (view m) { entries = e }) (fun_ext λ t. at t (Bool-cases (str_eq stream t)))
  where
    at :
        (t : String)
        → (str_eq stream t ≡ true) ⊎ (str_eq stream t ≡ false)
        → number 0 (if str_eq stream t then m.streams t ++ f ∷ [] else m.streams t) ≡ (
            if str_eq stream t
            then number 0 (m.streams t) ++ (str_int (pos (suc (length (m.streams stream)))), f) ∷ []
            else number 0 (m.streams t))
    at t (inl same) =
        rw (same, number-append 0 (m.streams t) f)
          (ap (λ j. number 0 (m.streams t) ++ (str_int (pos (suc j)), f) ∷ [])
            (omega (arith, ap (λ u. length (m.streams u)) ((eq_iff stream t).0 same))))
    at t (inr other) = rw other

-- The cursor of a prefix is the number of its entries.
cursor-number :
    (k : ℕ) (fs : List Fields) (xs ys : List Entry)
    → number k fs ≡ xs ++ ys
    → id_of (str_int (pos k)) xs ≡ str_int (pos (k + length xs))
unfolding number
cursor-number k fs [] ys h = ap (λ j. str_int (pos j)) (omega arith)
cursor-number k [] (x ∷ xs) ys h = cc h
cursor-number k (f ∷ fs) ((id, g) ∷ xs) ys h =
    let head : str_int (pos (suc k)) ≡ id = ap (λ es. id_of "0" (take 1 es)) h in
    rw (← head)
      (cursor-number (suc k) fs xs ys (ap (drop 1) h) ∙ ap (λ j. str_int (pos j)) (omega arith))

drop-append : (xs ys : List Entry) → drop (length xs) (xs ++ ys) ≡ ys
drop-append [] ys = refl
drop-append (x ∷ xs) ys = drop-append xs ys

str_int_zero : str_int (pos 0) ≡ "0"
unfolding str_int
str_int_zero = refl

-- Reading from a cursor gives what comes after it.
pub xread-after :
    (stream last : String) (n : ℕ) (m : Mem) (xs ys : List Entry)
    → number 0 (m.streams stream) ≡ xs ++ ys
    → last ≡ cursor xs
    → take n (after (parse_int last) (number 0 (m.streams stream))) ≡ take n ys
xread-after stream last n m xs ys e c =
    let at : last ≡ str_int (pos (length xs)) =
      c
      ∙ ap (λ z. id_of z xs) (sym str_int_zero)
      ∙ cursor-number 0 (m.streams stream) xs ys e
      ∙ ap (λ j. str_int (pos j)) (omega arith) in
    rw (at, parse_int-str_int (pos (length xs)), e) (ap (take n) (drop-append xs ys))
