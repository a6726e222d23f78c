-- ===== src/Utils/Sort/Merge/Loop.antt =====
-- src/utils.rs: the loop of `sort_list` that merges two lists gives the merged list.
use rust_json_port_mortem.Base.{
  ℕ, zero, suc, ◌+◌, ◌<◌, ◌≡◌, ◌∙◌, refl, sym, subst, Bool, true, List, [], ◌∷◌, ◌++◌, append_assoc,
  arith, length, Returns, returns, Returns-mono, Bool-cases, inl, inr, Outcome,
}
use rust_json_port_mortem.Manip.Links.{Store, null, is_item}
use rust_json_port_mortem.Manip.Links.Chain.{
  head_or, last_or, last_or-append, NotIn, Within, last_or-All,
}
use rust_json_port_mortem.Manip.Links.Steps.{
  not_null, unequal, equal, load-ok, set_next-ok, set_prev-ok,
}
use rust_json_port_mortem.Utils.Sort.{append_rest, merge_loop}
use rust_json_port_mortem.Utils.Sort.Lists.{merge}
use rust_json_port_mortem.Utils.Sort.Steps.{before, Linked}
use rust_json_port_mortem.Utils.Sort.Merge.{
  Doing, swap-Doing, begin-Doing, linked, link-Doing, rest-Linked, linked-Within,
}

pub Within-trans :
    {h h1 h2 : Store} {p : ℕ} {zs : List ℕ}
    → Within h h1 p zs
    → Within h1 h2 p zs
    → Within h h2 p zs
Within-trans v w = record {
  live = w.live ∙ v.live;
  next = λ a n. w.next a n ∙ v.next a n;
  prev = λ a n. w.prev a n ∙ v.prev a n;
  child = λ a n. w.child a n ∙ v.child a n;
  type_ = w.type_ ∙ v.type_;
  valuestring = w.valuestring ∙ v.valuestring;
  string = w.string ∙ v.string;
  memory = w.memory ∙ v.memory;
  values_freed = w.values_freed ∙ v.values_freed;
  names_freed = w.names_freed ∙ v.names_freed;
}

pub Within-refl : (h : Store) (p : ℕ) (zs : List ℕ) → Within h h p zs
Within-refl h p zs = record {
  live = refl;
  next = λ a n. refl;
  prev = λ a n. refl;
  child = λ a n. refl;
  type_ = refl;
  valuestring = refl;
  string = refl;
  memory = refl;
  values_freed = refl;
  names_freed = refl;
}

-- The list `l` was made of the items `zs`.
pub record Made (h : Store) (zs l : List ℕ) (r : ℕ × Store) : Type 0 where
  pub result : r.0 ≡ head_or null l
  pub list : (start : ℕ) × Linked r.1 start l
  pub within : Within h r.1 null zs

module _ (h : Store) (zs : List ℕ) where
  append_left :
      (ds : List ℕ) (x : ℕ) (xs : List ℕ)
      → Doing h zs ds (x ∷ xs) []
      → Returns
          (Made h zs (ds ++ x ∷ xs))
          (append_rest (head_or null ds) (last_or null ds) x null h)
  unfolding append_rest
  append_left [] x xs d = simp (not_null h x d.left.items.0) (
      returns (record { result = refl; list = (d.from_x, d.left); within = Within-refl h null zs }))
  append_left (e ∷ ds) x xs d =
      let at_last = last_or-All (λ z. is_item h z ≡ true) e ds d.done.0 d.done.1 in
      simp
        (
          not_null h x d.left.items.0,
          not_null h e d.done.0,
          set_next-ok,
          set_prev-ok,
          at_last,
          d.left.items.0,
        )
        (returns (record {
          result = refl;
          list = rest-Linked h zs e ds x xs [] d;
          within = linked-Within h zs e ds x xs [] d;
        }))

  append_right :
      (ds : List ℕ) (y : ℕ) (ys : List ℕ)
      → Doing h zs ds [] (y ∷ ys)
      → Returns
          (Made h zs (ds ++ y ∷ ys))
          (append_rest (head_or null ds) (last_or null ds) null y h)
  unfolding append_rest
  append_right [] y ys d = simp (not_null h y d.right.items.0) (
      returns
        (record { result = refl; list = (d.from_y, d.right); within = Within-refl h null zs }))
  append_right (e ∷ ds) y ys d =
      let at_last = last_or-All (λ z. is_item h z ≡ true) e ds d.done.0 d.done.1 in
      simp
        (
          not_null h y d.right.items.0,
          not_null h e d.done.0,
          set_next-ok,
          set_prev-ok,
          at_last,
          d.right.items.0,
        )
        (returns (record {
          result = refl;
          list = rest-Linked h zs e ds y ys [] (swap-Doing d);
          within = linked-Within h zs e ds y ys [] (swap-Doing d);
        }))

-- A round that links `x` behind the list goes on with a list that is one longer.
module _ (h h1 : Store) (zs : List ℕ) (c : ℕ) (ds : List ℕ) (x : ℕ) (l : List ℕ) where
  round :
      (rest : ℕ → Outcome (ℕ × Store))
      → Within h h1 null zs
      → Returns (Made h1 zs ((c ∷ ds ++ x ∷ []) ++ l)) (rest (last_or c (ds ++ x ∷ [])))
      → Returns (Made h zs (c ∷ ds ++ x ∷ l)) (rest x)
  round rest w r =
      subst (λ t. Returns (Made h zs (c ∷ ds ++ x ∷ l)) (rest t)) (last_or-append c x ds [])
        (Returns-mono r λ r' m.
          subst (λ q. Made h zs (c ∷ q) r') (append_assoc ds (x ∷ []) l)
            (record { result = m.result; list = m.list; within = Within-trans w m.within }))

module _ (case_sensitive : Bool) (zs : List ℕ) where
  pub merge_loop-Made :
      (fuel : ℕ) (h : Store) (ds xs ys : List ℕ)
      → Doing h zs ds xs ys
      → 0 < length xs + length ys
      → length xs + length ys < fuel
      → Returns (Made h zs (ds ++ merge (before case_sensitive h) fuel xs ys)) (
          merge_loop case_sensitive fuel
            (head_or null ds)
            (last_or null ds)
            (head_or null xs)
            (head_or null ys)
            h)
  unfolding merge_loop merge
  merge_loop-Made zero h ds xs ys d some_left e = absurd (omega arith)
  merge_loop-Made (suc fuel) h ds [] [] d some_left e = absurd (omega arith)
  merge_loop-Made (suc fuel) h ds [] (y ∷ ys) d some_left e = append_right h zs ds y ys d
  merge_loop-Made (suc fuel) h ds (x ∷ xs) [] d some_left e =
      simp (not_null h x d.left.items.0) (append_left h zs ds x xs d)
  merge_loop-Made (suc fuel) h [] (x ∷ xs) (y ∷ ys) d some_left e =
      elim (Bool-cases (before case_sensitive h x y)) [
        | inl b ↦
            simp
              (
                not_null h x d.left.items.0,
                not_null h y d.right.items.0,
                load-ok,
                d.left.items.0,
                d.right.items.0,
                b,
                equal x,
                d.left.nexts.0,
              )
              (merge_loop-Made fuel h (x ∷ []) xs (y ∷ ys) (begin-Doing h zs x xs (y ∷ ys) d)
                (omega arith) (omega (arith, e)))
        | inr b ↦
            simp
              (
                not_null h x d.left.items.0,
                not_null h y d.right.items.0,
                load-ok,
                d.left.items.0,
                d.right.items.0,
                b,
                unequal x y (λ f. d.apart.0.0 (sym f)),
                d.right.nexts.0,
              )
              (merge_loop-Made fuel h (y ∷ []) (x ∷ xs) ys
                (swap-Doing (begin-Doing h zs y ys (x ∷ xs) (swap-Doing d))) (omega arith)
                (omega (arith, e)))
      ]
  merge_loop-Made (suc fuel) h (c ∷ ds) (x ∷ xs) (y ∷ ys) d some_left e =
      let at_last = last_or-All (λ z. is_item h z ≡ true) c ds d.done.0 d.done.1 in
      let last = last_or c ds in
      let not_left = last_or-All (λ z. NotIn z (x ∷ xs)) c ds d.apart_left.0 d.apart_left.1 in
      let not_right = last_or-All (λ z. NotIn z (y ∷ ys)) c ds d.apart_right.0 d.apart_right.1 in
      elim (Bool-cases (before case_sensitive h x y)) [
        | inl b ↦
            simp
              (
                not_null h x d.left.items.0,
                not_null h y d.right.items.0,
                not_null h c d.done.0,
                load-ok,
                set_next-ok,
                set_prev-ok,
                at_last,
                d.left.items.0,
                d.right.items.0,
                b,
                equal x,
                unequal x last not_left.0,
                d.left.nexts.0,
              )
              (round h (linked h last x) zs c ds x
                (merge (before case_sensitive h) fuel xs (y ∷ ys))
                (λ t. merge_loop case_sensitive fuel c t (head_or null xs) y (linked h last x))
                (linked-Within h zs c ds x xs (y ∷ ys) d)
                (merge_loop-Made fuel (linked h last x) (c ∷ ds ++ x ∷ []) xs (y ∷ ys)
                  (link-Doing h zs c ds x xs (y ∷ ys) d) (omega arith) (omega (arith, e))))
        | inr b ↦
            simp
              (
                not_null h x d.left.items.0,
                not_null h y d.right.items.0,
                not_null h c d.done.0,
                load-ok,
                set_next-ok,
                set_prev-ok,
                at_last,
                d.left.items.0,
                d.right.items.0,
                b,
                unequal x y (λ f. d.apart.0.0 (sym f)),
                unequal y last not_right.0,
                d.right.nexts.0,
              )
              (round h (linked h last y) zs c ds y
                (merge (before case_sensitive h) fuel (x ∷ xs) ys)
                (λ t. merge_loop case_sensitive fuel c t x (head_or null ys) (linked h last y))
                (linked-Within h zs c ds y ys (x ∷ xs) (swap-Doing d))
                (merge_loop-Made fuel (linked h last y) (c ∷ ds ++ y ∷ []) (x ∷ xs) ys
                  (swap-Doing (link-Doing h zs c ds y ys (x ∷ xs) (swap-Doing d))) (omega arith)
                  (omega (arith, e))))
      ]
