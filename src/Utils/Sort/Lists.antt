-- ===== src/Utils/Sort/Lists.antt =====
-- src/utils.rs: `sort_list` as a function on lists, with a test of "less".
use mathlib.Core.List.{Perm, perm_middle}
use mathlib.Core.List.Perm
use rust_json_port_mortem.Base.{
  ℕ, zero, suc, ◌+◌, ◌<◌, ◌≤◌, ◌≡◌, refl, ap, ◌∙◌, sym, Bool, true, false, ◌&&◌, List, [], ◌∷◌,
  ◌++◌, append-nil, arith, length, length-append, subst, All, All-split, if◌then◌else◌, Bool-cases,
  inl, inr,
}

module _ (less : ℕ → ℕ → Bool) where
  -- Each item is less than the next one.
  unfoldable pub increasing : List ℕ → Bool
  increasing [] = true
  increasing (x ∷ []) = true
  increasing (x ∷ y ∷ xs) = less x y && increasing (y ∷ xs)

  unfoldable pub merge : ℕ → List ℕ → List ℕ → List ℕ
  merge zero xs ys = []
  merge (suc fuel) [] ys = ys
  merge (suc fuel) (x ∷ xs) [] = x ∷ xs
  merge (suc fuel) (x ∷ xs) (y ∷ ys) =
      let left = x ∷ merge fuel xs (y ∷ ys) in
      let right = y ∷ merge fuel (x ∷ xs) ys in if less x y then left else right

-- The front of the first list, one for two of the other, and what is left.
unfoldable pub halve : List ℕ → List ℕ → List ℕ × List ℕ
halve [] ys = ([], [])
halve (x ∷ xs) [] = ([], x ∷ xs)
halve (x ∷ xs) (y ∷ []) = (x ∷ [], xs)
halve (x ∷ xs) (y ∷ z ∷ ys) = let r = halve xs ys in (x ∷ r.0, r.1)

module _ (less : ℕ → ℕ → Bool) where
  unfoldable pub merge_sort : ℕ → List ℕ → List ℕ
  merge_sort zero xs = xs
  merge_sort (suc fuel) xs =
      let h = halve xs xs in
      let sorted = merge less (suc fuel) (merge_sort fuel h.0) (merge_sort fuel h.1) in
      if increasing less xs then xs else sorted

  -- No item is less than the one before it.
  pub data IsSorted : List ℕ → Type 0 where
    empty : IsSorted []
    single : (x : ℕ) → IsSorted (x ∷ [])
    then_ : {x y : ℕ} {xs : List ℕ} → less y x ≡ false → IsSorted (y ∷ xs) → IsSorted (x ∷ y ∷ xs)

pub halve-append :
    (xs ys : List ℕ) → length ys ≤ length xs → (halve xs ys).0 ++ (halve xs ys).1 ≡ xs
unfolding halve
halve-append [] ys h = refl
halve-append (x ∷ xs) [] h = refl
halve-append (x ∷ xs) (y ∷ []) h = refl
halve-append (x ∷ xs) (y ∷ z ∷ ys) h = ap (λ l. x ∷ l) (halve-append xs ys (omega (arith, h)))

pub length-halve :
    (xs ys : List ℕ)
    → length ys ≤ length xs
    → length (halve xs ys).0 + length (halve xs ys).0 ≤ length ys + 1
unfolding halve
length-halve [] ys h = omega arith
length-halve (x ∷ xs) [] h = omega arith
length-halve (x ∷ xs) (y ∷ []) h = omega arith
length-halve (x ∷ xs) (y ∷ z ∷ ys) h = omega (arith, length-halve xs ys (omega (arith, h)))

module _ (less : ℕ → ℕ → Bool) where
  pub merge-Perm :
      (fuel : ℕ) (xs ys : List ℕ)
      → length xs + length ys < fuel
      → Perm (merge less fuel xs ys) (xs ++ ys)
  unfolding merge
  merge-Perm zero xs ys h = absurd (omega arith)
  merge-Perm (suc fuel) [] ys h = Perm.refl ys
  merge-Perm (suc fuel) (x ∷ xs) [] h = rw (append-nil xs) (Perm.refl (x ∷ xs))
  merge-Perm (suc fuel) (x ∷ xs) (y ∷ ys) h = elim (Bool-cases (less x y)) [
    | inl e ↦ rw e (Perm.cons x (merge-Perm fuel xs (y ∷ ys) (omega (arith, h))))
    | inr e ↦ rw e (
        Perm.trans (Perm.cons y (merge-Perm fuel (x ∷ xs) ys (omega (arith, h))))
          (Perm.symm (perm_middle (x ∷ xs) ys)))
  ]

  pub All-merge :
      (P : ℕ → Type 0) (fuel : ℕ) (xs ys : List ℕ)
      → All P xs
      → All P ys
      → All P (merge less fuel xs ys)
  unfolding merge
  All-merge P zero xs ys h k = tt
  All-merge P (suc fuel) [] ys h k = k
  All-merge P (suc fuel) (x ∷ xs) [] h k = h
  All-merge P (suc fuel) (x ∷ xs) (y ∷ ys) h k = elim (Bool-cases (less x y)) [
    | inl e ↦ rw e (h.0, All-merge P fuel xs (y ∷ ys) h.1 k)
    | inr e ↦ rw e (k.0, All-merge P fuel (x ∷ xs) ys h k.1)
  ]

  pub sizes :
      (fuel : ℕ) (xs : List ℕ)
      → increasing less xs ≡ false
      → length xs < suc fuel
      → (length (halve xs xs).0 < fuel) × (length (halve xs xs).1 < fuel)
  unfolding increasing halve
  sizes fuel [] e h = absurd (cc e)
  sizes fuel (x ∷ []) e h = absurd (cc e)
  sizes fuel (x ∷ y ∷ xs) e h =
      let all = x ∷ y ∷ xs in
      let front = length-halve all all (omega arith) in
      let whole = ap length (halve-append all all (omega arith)) in
      let sum = length-append (halve all all).0 (halve all all).1 in
      let some_front : 1 ≤ length (halve all all).0 = omega arith in
      (omega (arith, front, h), omega (arith, whole, sum, some_front, h))

  length-merge :
      (fuel : ℕ) (xs ys : List ℕ)
      → length xs + length ys < fuel
      → length (merge less fuel xs ys) ≡ length xs + length ys
  unfolding merge
  length-merge zero xs ys h = absurd (omega arith)
  length-merge (suc fuel) [] ys h = omega arith
  length-merge (suc fuel) (x ∷ xs) [] h = omega arith
  length-merge (suc fuel) (x ∷ xs) (y ∷ ys) h = elim (Bool-cases (less x y)) [
    | inl e ↦ rw e (omega (arith, length-merge fuel xs (y ∷ ys) (omega (arith, h))))
    | inr e ↦ rw e (omega (arith, length-merge fuel (x ∷ xs) ys (omega (arith, h))))
  ]

  -- The two parts together have the length of the list.
  pub parts : (xs : List ℕ) → length (halve xs xs).0 + length (halve xs xs).1 ≡ length xs
  parts xs =
      sym (length-append (halve xs xs).0 (halve xs xs).1)
      ∙ ap length (halve-append xs xs (omega arith))

  pub length-merge_sort :
      (fuel : ℕ) (xs : List ℕ) → length xs < fuel → length (merge_sort less fuel xs) ≡ length xs
  unfolding merge_sort
  length-merge_sort zero xs h = absurd (omega arith)
  length-merge_sort (suc fuel) xs h = elim (Bool-cases (increasing less xs)) [
    | inl e ↦ rw e refl
    | inr e ↦ rw e (
        let q = sizes fuel xs e h in
        let front = length-merge_sort fuel (halve xs xs).0 q.0 in
        let back = length-merge_sort fuel (halve xs xs).1 q.1 in
        let both =
          length-merge (suc fuel) (merge_sort less fuel (halve xs xs).0)
            (merge_sort less fuel (halve xs xs).1) (omega (arith, front, back, parts xs, h)) in
        omega (arith, both, front, back, parts xs))
  ]

  pub All-merge_sort :
      (P : ℕ → Type 0) (fuel : ℕ) (xs : List ℕ) → All P xs → All P (merge_sort less fuel xs)
  unfolding merge_sort
  All-merge_sort P zero xs a = a
  All-merge_sort P (suc fuel) xs a = elim (Bool-cases (increasing less xs)) [
    | inl e ↦ rw e a
    | inr e ↦ rw e (
        let q =
          All-split P (halve xs xs).0 (halve xs xs).1
            (subst (All P) (sym (halve-append xs xs (omega arith))) a) in
        All-merge P (suc fuel) _ _ (All-merge_sort P fuel (halve xs xs).0 q.0)
          (All-merge_sort P fuel (halve xs xs).1 q.1))
  ]

  pub merge_sort-Perm :
      (fuel : ℕ) (xs : List ℕ) → length xs < fuel → Perm (merge_sort less fuel xs) xs
  unfolding merge_sort
  merge_sort-Perm zero xs h = absurd (omega arith)
  merge_sort-Perm (suc fuel) xs h = elim (Bool-cases (increasing less xs)) [
    | inl e ↦ rw e (Perm.refl xs)
    | inr e ↦ rw e (
        let q = sizes fuel xs e h in
        let front = merge_sort-Perm fuel (halve xs xs).0 q.0 in
        let back = merge_sort-Perm fuel (halve xs xs).1 q.1 in
        let sorted_front = merge_sort less fuel (halve xs xs).0 in
        let sorted_back = merge_sort less fuel (halve xs xs).1 in
        Perm.trans
          (merge-Perm (suc fuel) sorted_front sorted_back (
            omega (
              arith,
              length-merge_sort fuel (halve xs xs).0 q.0,
              length-merge_sort fuel (halve xs xs).1 q.1,
              parts xs,
              h,
            )))
          (subst (λ l. Perm (sorted_front ++ sorted_back) l) (halve-append xs xs (omega arith))
            (Perm.append front back)))
  ]

  module _ (asymmetric : (x y : ℕ) → less x y ≡ true → less y x ≡ false) where
    IsSorted-tail : {x : ℕ} {xs : List ℕ} → IsSorted less (x ∷ xs) → IsSorted less xs
    IsSorted-tail (single x) = empty
    IsSorted-tail (then_ e s) = s

    -- What is behind an item stays behind it when it is merged.
    merge-behind :
        (fuel : ℕ) (z : ℕ) (xs ys : List ℕ)
        → IsSorted less (z ∷ xs)
        → IsSorted less (z ∷ ys)
        → IsSorted less (z ∷ merge less fuel xs ys)
    unfolding merge
    merge-behind zero z xs ys s t = single z
    merge-behind (suc fuel) z [] ys s t = t
    merge-behind (suc fuel) z (x ∷ xs) [] s t = s
    merge-behind (suc fuel) z (x ∷ xs) (y ∷ ys) (then_ d s) (then_ d' t) =
        elim (Bool-cases (less x y)) [
          | inl e ↦ rw e (then_ d (merge-behind fuel x xs (y ∷ ys) s (then_ (asymmetric x y e) t)))
          | inr e ↦ rw e (then_ d' (merge-behind fuel y (x ∷ xs) ys (then_ e s) t))
        ]

    pub merge-IsSorted :
        (fuel : ℕ) (xs ys : List ℕ)
        → IsSorted less xs
        → IsSorted less ys
        → IsSorted less (merge less fuel xs ys)
    unfolding merge
    merge-IsSorted zero xs ys s t = empty
    merge-IsSorted (suc fuel) [] ys s t = t
    merge-IsSorted (suc fuel) (x ∷ xs) [] s t = s
    merge-IsSorted (suc fuel) (x ∷ xs) (y ∷ ys) s t = elim (Bool-cases (less x y)) [
      | inl e ↦ rw e (merge-behind fuel x xs (y ∷ ys) s (then_ (asymmetric x y e) t))
      | inr e ↦ rw e (merge-behind fuel y (x ∷ xs) ys (then_ e s) t)
    ]

    increasing-IsSorted : (xs : List ℕ) → increasing less xs ≡ true → IsSorted less xs
    unfolding increasing
    increasing-IsSorted [] e = empty
    increasing-IsSorted (x ∷ []) e = single x
    increasing-IsSorted (x ∷ y ∷ xs) e =
        then_ (asymmetric x y (ground (arith, e)))
          (increasing-IsSorted (y ∷ xs) (ground (arith, e)))

    pub merge_sort-IsSorted :
        (fuel : ℕ) (xs : List ℕ) → length xs < fuel → IsSorted less (merge_sort less fuel xs)
    unfolding merge_sort
    merge_sort-IsSorted zero xs h = absurd (omega arith)
    merge_sort-IsSorted (suc fuel) xs h = elim (Bool-cases (increasing less xs)) [
      | inl e ↦ rw e (increasing-IsSorted xs e)
      | inr e ↦ rw e (
          let q = sizes fuel xs e h in
          merge-IsSorted (suc fuel) (merge_sort less fuel (halve xs xs).0)
            (merge_sort less fuel (halve xs xs).1) (merge_sort-IsSorted fuel (halve xs xs).0 q.0)
            (merge_sort-IsSorted fuel (halve xs xs).1 q.1))
    ]
