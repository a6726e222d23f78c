-- ===== src/Utils/Sort/Steps.antt =====
-- src/utils.rs: the loops of `sort_list` that look at a list and split it.
use rust_json_port_mortem.Base.{
  ℕ, zero, suc, ◌<◌, ◌≤◌, ◌≡◌, ◌∙◌, refl, ap, sym, Bool, true, List, [], ◌∷◌, ◌++◌, arith, length,
  All, All-split, All-map, Returns, returns, ok, Bool-cases, inl, inr,
}
use rust_json_port_mortem.Manip.Links.{Store, null, is_item}
use rust_json_port_mortem.Manip.Links.Chain.{
  head_or, last_or, Nexts, Prevs, NotIn, AreDistinct, Within, Nexts-split, Nexts-last, Nexts-frame,
  Prevs-split, Prevs-head, Prevs-frame, last_or-All, last_or-NotIn,
}
use rust_json_port_mortem.Manip.Links.Middle.{AreDistinct-split}
use rust_json_port_mortem.Manip.Links.Steps.{not_null, load-ok, set_next-ok, set_prev-ok}
use rust_json_port_mortem.Utils.Sort.{less, sorted_loop, middle_loop, split_lists}
use rust_json_port_mortem.Utils.Sort.Lists.{increasing, halve}

-- The test of two items by their names
abbrev pub before : Bool → Store → ℕ → ℕ → Bool
before case_sensitive h a b = less case_sensitive (h.string a) (h.string b)

-- A list of items that `next` links, with `prev` from each to the one before, but for the first.
pub record Linked (h : Store) (start : ℕ) (xs : List ℕ) : Type 0 where
  pub items : All (λ x. is_item h x ≡ true) xs
  pub distinct : AreDistinct xs
  pub nexts : Nexts h.next xs null
  pub prevs : Prevs h.prev start xs

halve-rest : (xs : List ℕ) → (halve xs []).1 ≡ xs
unfolding halve
halve-rest [] = refl
halve-rest (x ∷ xs) = refl

module _ (case_sensitive : Bool) (h : Store) where
  pub sorted_loop-increasing :
      (fuel : ℕ) (xs : List ℕ)
      → All (λ x. is_item h x ≡ true) xs
      → Nexts h.next xs null
      → length xs < fuel
      → sorted_loop case_sensitive fuel (head_or null xs) h
        ≡ ok (increasing (before case_sensitive h) xs, h)
  unfolding sorted_loop increasing
  sorted_loop-increasing zero xs v n e = absurd (omega arith)
  sorted_loop-increasing (suc fuel) [] v n e = refl
  sorted_loop-increasing (suc fuel) (x ∷ []) v n e = simp (not_null h x v.0, load-ok, v.0, n.0) refl
  sorted_loop-increasing (suc fuel) (x ∷ y ∷ xs) v n e =
      elim (Bool-cases (before case_sensitive h x y)) [
        | inl b ↦
            simp (not_null h x v.0, load-ok, v.0, n.0, not_null h y v.1.0, v.1.0, b)
              (sorted_loop-increasing fuel (y ∷ xs) v.1 n.1 (omega (arith, e)))
        | inr b ↦ simp (not_null h x v.0, load-ok, v.0, n.0, not_null h y v.1.0, v.1.0, b) refl
      ]

  pub middle_loop-halve :
      (fuel : ℕ) (xs ys : List ℕ)
      → All (λ x. is_item h x ≡ true) xs
      → All (λ x. is_item h x ≡ true) ys
      → Nexts h.next xs null
      → Nexts h.next ys null
      → length ys ≤ length xs
      → length ys < fuel
      → middle_loop fuel (head_or null xs) (head_or null ys) h
        ≡ ok (head_or null (halve xs ys).1, h)
  unfolding middle_loop halve
  middle_loop-halve zero xs ys v w n m l e = absurd (omega arith)
  middle_loop-halve (suc fuel) [] [] v w n m l e = refl
  middle_loop-halve (suc fuel) [] (y ∷ ys) v w n m l e = absurd (omega arith)
  middle_loop-halve (suc fuel) (x ∷ xs) [] v w n m l e = refl
  middle_loop-halve (suc fuel) (x ∷ xs) (y ∷ []) v w n m l e =
      simp (not_null h y w.0, load-ok, v.0, w.0, n.0, m.0)
        (middle_loop-halve fuel xs [] v.1 tt n.1 tt (omega arith) (omega (arith, e))
          ∙ ap (λ l. ok (head_or null l, h)) (halve-rest xs))
  middle_loop-halve (suc fuel) (x ∷ xs) (y ∷ z ∷ ys) v w n m l e =
      simp (not_null h y w.0, load-ok, v.0, w.0, n.0, m.0, not_null h z w.1.0, w.1.0, m.1.0)
        (middle_loop-halve fuel xs ys v.1 w.1.1 n.1 m.1.1 (omega (arith, l)) (omega (arith, e)))

-- Behind a first list that is not empty, the second is cut off.
pub split_lists-Linked :
    (h : Store) (start x : ℕ) (xs : List ℕ) (y : ℕ) (ys : List ℕ)
    → Linked h start (x ∷ xs ++ y ∷ ys)
    → Returns
        (λ r.
          (Linked r.1 start (x ∷ xs) × Linked r.1 null (y ∷ ys))
          × Within h r.1 null (x ∷ xs ++ y ∷ ys))
        (split_lists y h)
unfolding split_lists
split_lists-Linked h start x xs y ys l =
    let v = All-split _ (x ∷ xs) (y ∷ ys) l.items in
    let u = AreDistinct-split (x ∷ xs) (y ∷ ys) l.distinct in
    let n = Nexts-split h.next (x ∷ xs) (y ∷ ys) null l.nexts in
    let b = Prevs-split h.prev start (x ∷ xs) (y ∷ ys) l.prevs in
    let last = last_or x xs in
    let at_last = last_or-All (λ z. is_item h z ≡ true) x xs v.0.0 v.0.1 in
    let other = last_or-All (λ z. NotIn z (y ∷ ys)) x xs u.1.0 u.1.1 in
    simp
      (
        not_null h y v.1.0,
        load-ok,
        v.1.0,
        b.1.0,
        not_null h last at_last,
        at_last,
        set_next-ok,
        set_prev-ok,
      )
      (returns (
        (
          record {
            items = v.0;
            distinct = u.0.0;
            nexts = Nexts-last h.next null y null (x ∷ xs) u.0.0 n.0;
            prevs =
                Prevs-frame h.prev y null start (x ∷ xs)
                  (All-map (λ z q e. q.0 (sym e)) (x ∷ xs) u.1) b.0;
          },
          record {
            items = v.1;
            distinct = u.0.1;
            nexts = Nexts-frame h.next last null (y ∷ ys) null other n.1;
            prevs = Prevs-head h.prev null last null (y ∷ ys) u.0.1 b.1;
          },
        ),
        record {
          live = refl;
          next = λ a o.
              (let q = All-split _ (x ∷ xs) (y ∷ ys) o in
                ground (arith, last_or-NotIn a x xs q.0.0 q.0.1));
          prev = λ a o. (let q = All-split _ (x ∷ xs) (y ∷ ys) o in ground (arith, q.1.0));
          child = λ a o. refl;
          type_ = refl;
          valuestring = refl;
          string = refl;
          memory = refl;
          values_freed = refl;
          names_freed = refl;
        },
      ))
