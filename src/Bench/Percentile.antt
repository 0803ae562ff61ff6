-- ===== src/Bench/Percentile.antt =====
-- A percentile is an observed sample, at the rank of its quantile.
use message_broker_patterns.Base.{
  ℕ, suc, zero, ◌≤◌, ◌<◌, ◌≡◌, ◌⊎◌, inl, inr, refl, sym, ◌∙◌, ap, subst, Bool, true, false, not,
  some, List, [], ◌∷◌, length, get_elem?, All, All-imp, arith, if◌then◌else◌,
}
use mathlib.Core.Bool.{true≢false}
use message_broker_patterns.Base.Int.{ℤ, pos, pos_part, ◌-ℤ◌, ◌≤ℤ◌}
use message_broker_patterns.Base.Exec.{ok}
use message_broker_patterns.Bench.{
  Arithmetic, Laws, rank, is_quantile, insert, sorted, at_rank, percentile,
}

-- How many elements pass a test.
abbrev pub count {ℓ} : {A : Type ℓ} → (A → Bool) → List A → ℕ
count p [] = 0
count p (x ∷ xs) = let rest = count p xs in if p x then suc rest else rest

abbrev pub IsIn : {A : Type 0} → A → List A → Type 0
IsIn x [] = ⊥
IsIn x (y ∷ ys) = (y ≡ x) ⊎ IsIn x ys

before_last : (r : ℤ) (n : ℕ) → r ≤ℤ pos (suc n) → pos_part (r -ℤ pos 1) < suc n
unfolding ◌-ℤ◌
before_last r n h = ground arith

module _ (fl : Arithmetic) where
  count-insert :
      (p : fl.Float → Bool) (x : fl.Float) (ys : List fl.Float)
      → count p (insert fl x ys) ≡ count p (x ∷ ys)
  unfolding insert
  count-insert p x [] = refl
  count-insert p x (y ∷ ys) = ground (arith, count-insert p x ys)

  count-sorted : (p : fl.Float → Bool) (xs : List fl.Float) → count p (sorted fl xs) ≡ count p xs
  unfolding sorted
  count-sorted p [] = refl
  count-sorted p (x ∷ xs) = ground (arith, count-sorted p xs, count-insert p x (sorted fl xs))

  length-insert : (x : fl.Float) (ys : List fl.Float) → length (insert fl x ys) ≡ suc (length ys)
  unfolding insert
  length-insert x [] = refl
  length-insert x (y ∷ ys) = ground (arith, length-insert x ys)

  length-sorted : (xs : List fl.Float) → length (sorted fl xs) ≡ length xs
  unfolding sorted
  length-sorted [] = refl
  length-sorted (x ∷ xs) = length-insert x (sorted fl xs) ∙ ap suc (length-sorted xs)

  IsIn-insert : (z x : fl.Float) (ys : List fl.Float) → IsIn z (insert fl x ys) → IsIn z (x ∷ ys)
  unfolding insert
  IsIn-insert z x [] h = h
  IsIn-insert z x (y ∷ ys) h = go (IsIn-insert z x ys) (fl.le x y) h
    where
      past :
          (IsIn z (insert fl x ys) → IsIn z (x ∷ ys))
          → (y ≡ z) ⊎ IsIn z (insert fl x ys)
          → IsIn z (x ∷ y ∷ ys)
      past k (inl e) = inr (inl e)
      past k (inr h) = elim (k h) [ inl e ↦ inl e | inr i ↦ inr (inr i) ]

      go :
          (IsIn z (insert fl x ys) → IsIn z (x ∷ ys))
          → (b : Bool) → IsIn z (if b then x ∷ y ∷ ys else y ∷ insert fl x ys)
          → IsIn z (x ∷ y ∷ ys)
      go k true h = h
      go k false h = past k h

  IsIn-sorted : (z : fl.Float) (xs : List fl.Float) → IsIn z (sorted fl xs) → IsIn z xs
  unfolding sorted
  IsIn-sorted z [] h = h
  IsIn-sorted z (x ∷ xs) h = elim (IsIn-insert z x (sorted fl xs) h) [
    | inl e ↦ inl e
    | inr i ↦ inr (IsIn-sorted z xs i)
  ]

  module _ (laws : Laws fl) where
    abbrev IsSorted : List fl.Float → Type 0
    IsSorted [] = Unit
    IsSorted (x ∷ xs) = All (λ y. fl.le x y ≡ true) xs × IsSorted xs

    le_refl : (x : fl.Float) → fl.le x x ≡ true
    le_refl x = elim (laws.total x x) [ inl e ↦ e | inr e ↦ e ]

    All-insert :
        (a x : fl.Float) (ys : List fl.Float)
        → fl.le a x ≡ true
        → All (λ y. fl.le a y ≡ true) ys
        → All (λ y. fl.le a y ≡ true) (insert fl x ys)
    unfolding insert
    All-insert a x [] h k = (h, tt)
    All-insert a x (y ∷ ys) h k = ground (arith, All-insert a x ys h k.1, h, k.0, k.1)

    insert-IsSorted : (x : fl.Float) (ys : List fl.Float) → IsSorted ys → IsSorted (insert fl x ys)
    unfolding insert
    insert-IsSorted x [] h = (tt, tt)
    insert-IsSorted x (y ∷ ys) h = go (fl.le x y) refl (insert-IsSorted x ys h.1)
      where
        below : fl.le x y ≡ false → fl.le y x ≡ true
        below e = elim (laws.total x y) [ inl f ↦ absurd (true≢false (sym f ∙ e)) | inr f ↦ f ]

        go :
            (b : Bool)
            → fl.le x y ≡ b
            → IsSorted (insert fl x ys)
            → IsSorted (if b then x ∷ y ∷ ys else y ∷ insert fl x ys)
        go true e k = (
          (
            e,
            All-imp (λ z. fl.le y z ≡ true) (λ z. fl.le x z ≡ true) (λ z. laws.trans x y z e) ys
                h.0,
          ),
          h,
        )
        go false e k = (All-insert y x ys (below e) h.0, k)

    sorted-IsSorted : (xs : List fl.Float) → IsSorted (sorted fl xs)
    unfolding sorted
    sorted-IsSorted [] = tt
    sorted-IsSorted (x ∷ xs) = insert-IsSorted x (sorted fl xs) (sorted-IsSorted xs)

    -- What stands at a position of a list, against the tests on the other elements.
    record Ranked (x : fl.Float) (i : ℕ) (ys : List fl.Float) : Type 0 where
      there : IsIn x ys
      at_least : suc i ≤ count (λ y. fl.le y x) ys
      at_most : count (λ y. not (fl.le x y)) ys ≤ i

    none_below :
        (x : fl.Float) (ys : List fl.Float)
        → All (λ y. fl.le x y ≡ true) ys
        → count (λ y. not (fl.le x y)) ys ≡ 0
    none_below x [] h = refl
    none_below x (y ∷ ys) h = rw h.0 (none_below x ys h.1)

    All-IsIn :
        (x y : fl.Float) (ys : List fl.Float)
        → All (λ z. fl.le y z ≡ true) ys
        → IsIn x ys
        → fl.le y x ≡ true
    All-IsIn x y [] h i = absurd i
    All-IsIn x y (z ∷ ys) h (inl e) = subst (λ w. fl.le y w ≡ true) e h.0
    All-IsIn x y (z ∷ ys) h (inr i) = All-IsIn x y ys h.1 i

    get-Ranked :
        (ys : List fl.Float) (i : ℕ) (lt : i < length ys)
        → IsSorted ys
        → (x : fl.Float) × (get_elem? ys i ≡ some x) × Ranked x i ys
    get-Ranked [] i lt h = ground arith
    get-Ranked (y ∷ ys) zero lt h = (
      y,
      refl,
      record {
        there = inl refl;
        at_least = ground (arith, le_refl y);
        at_most = ground (arith, le_refl y, none_below y ys h.0);
      },
    )
    get-Ranked (y ∷ ys) (suc i) lt h =
        let (x, at, r) = get-Ranked ys i (omega arith) h.1 in
        (
          x,
          at,
          record {
            there = inr r.there;
            at_least = rw (All-IsIn x y ys h.0 r.there) (omega (arith, r.at_least));
            at_most = ground (arith, r.at_most);
          },
        )

    index : fl.Float → ℕ → ℕ
    index q n = pos_part (rank fl q n -ℤ pos 1)

    index_lt : (q : fl.Float) (n : ℕ) → is_quantile fl q ≡ true → index q (suc n) < suc n
    unfolding index
    index_lt q n h = before_last (rank fl q (suc n)) n (laws.rank_le q (suc n) h)

    -- A percentile of a sample that is not empty, at a quantile from 0 to 100, is an element of the
    -- sample. Its rank is `ceil(quantile / 100 * n)`, or 1 where that is 0: so many elements, at
    -- least, are at most the percentile, and fewer than so many are not at least it.
    pub percentile-Ranked :
        (v : fl.Float) (vs : List fl.Float) (q : fl.Float)
        → is_quantile fl q ≡ true
        → let k = pos_part (rank fl q (length (v ∷ vs)) -ℤ pos 1) in
          (x : fl.Float) × (percentile fl (v ∷ vs) q ≡ ok x)
          × IsIn x (v ∷ vs)
          × (suc k ≤ count (λ y. fl.le y x) (v ∷ vs))
          × (count (λ y. not (fl.le x y)) (v ∷ vs) ≤ k)
    unfolding percentile at_rank index
    percentile-Ranked v vs q h =
        let n = length-sorted (v ∷ vs) in
        let k = index q (length (v ∷ vs)) in
        let (x, at, r) =
          get-Ranked (sorted fl (v ∷ vs)) k (rw n (index_lt q (length vs) h))
            (sorted-IsSorted (v ∷ vs)) in
        (
          x,
          rw (h, n, at) refl,
          IsIn-sorted x (v ∷ vs) r.there,
          rw (← count-sorted (λ y. fl.le y x) (v ∷ vs)) r.at_least,
          rw (← count-sorted (λ y. not (fl.le x y)) (v ∷ vs)) r.at_most,
        )
