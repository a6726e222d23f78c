-- ===== src/Utils/Sort/Order.antt =====
-- src/utils.rs: `sort_list` and `sort_object` put items in the order of their names.
use mathlib.Core.List.{Perm}
use rust_json_port_mortem.Base.{
  ℕ, ◌<◌, ◌≡◌, refl, sym, subst, Bool, true, false, Option, some, none, List, [], ◌∷◌, arith,
  length, Returns, returns, Returns-mono,
}
use rust_json_port_mortem.Model.{Bytes}
use rust_json_port_mortem.Manip.Lookup.{cstr_cmp, insensitive_loop, difference, to_ascii_lowercase}
use rust_json_port_mortem.Manip.Links.{Store, null, valid}
use rust_json_port_mortem.Manip.Links.Chain.{head_or, last_or, Items}
use rust_json_port_mortem.Manip.Links.Steps.{not_null, load-ok, set_child-ok}
use rust_json_port_mortem.Manip.Links.Delete.Forest.{then-Returns}
use rust_json_port_mortem.Utils.Sort.{compare_strings, is_negative, less, sort_list, sort_object}
use rust_json_port_mortem.Utils.Sort.Lists.{
  IsSorted, merge_sort, merge_sort-IsSorted, merge_sort-Perm,
}
use rust_json_port_mortem.Utils.Sort.Steps.{before, Linked}
use rust_json_port_mortem.Utils.Sort.Merge.Loop.{Made}
use rust_json_port_mortem.Utils.Sort.Result.{sort_list-Made}

difference-asymmetric :
    (x y : ℕ) → is_negative (difference x y) ≡ true → is_negative (difference y x) ≡ false
unfolding difference
difference-asymmetric x y e = ground (arith, e)

cstr_cmp-asymmetric :
    (a b : Bytes) → is_negative (cstr_cmp a b) ≡ true → is_negative (cstr_cmp b a) ≡ false
unfolding cstr_cmp
cstr_cmp-asymmetric [] [] e = refl
cstr_cmp-asymmetric [] (y ∷ b) e = difference-asymmetric 0 y e
cstr_cmp-asymmetric (x ∷ a) [] e = difference-asymmetric x 0 e
cstr_cmp-asymmetric (x ∷ a) (y ∷ b) e =
    ground (arith, e, cstr_cmp-asymmetric a b, difference-asymmetric x y)

insensitive_loop-asymmetric :
    (a b : Bytes)
    → is_negative (insensitive_loop a b) ≡ true
    → is_negative (insensitive_loop b a) ≡ false
unfolding insensitive_loop
insensitive_loop-asymmetric [] [] e = refl
insensitive_loop-asymmetric [] (y ∷ b) e = difference-asymmetric 0 (to_ascii_lowercase y) e
insensitive_loop-asymmetric (x ∷ a) [] e = difference-asymmetric (to_ascii_lowercase x) 0 e
insensitive_loop-asymmetric (x ∷ a) (y ∷ b) e = ground (
  arith,
  e,
  insensitive_loop-asymmetric a b,
  difference-asymmetric (to_ascii_lowercase x) (to_ascii_lowercase y),
)

-- Of two names only one is less than the other.
pub less-asymmetric :
    (case_sensitive : Bool) (s t : Option Bytes)
    → less case_sensitive s t ≡ true
    → less case_sensitive t s ≡ false
unfolding less compare_strings
less-asymmetric cs none t e = absurd (cc e)
less-asymmetric cs (some s) none e = absurd (cc e)
less-asymmetric true (some s) (some t) e = cstr_cmp-asymmetric s t e
less-asymmetric false (some s) (some t) e = insensitive_loop-asymmetric s t e

module _ (case_sensitive : Bool) where
  -- A list that was made of the items `xs`, in the order of their names
  pub record Sorted (h : Store) (xs : List ℕ) (r : ℕ × Store) : Type 0 where
    pub list : List ℕ
    pub made : Made h xs list r
    pub permutes : Perm list xs
    pub sorted : IsSorted (before case_sensitive h) list

  -- `sort_list` on linked items, with fuel for each and one more, ends without an access to what is no
  -- item, and gives a list of the same items in which none has a name less than the one before it; each
  -- leads to the next, and back but for the first, and other links stay.
  pub sort_list-Sorted :
      (fuel : ℕ) (h : Store) (start : ℕ) (xs : List ℕ)
      → Linked h start xs
      → length xs < fuel
      → Returns (Sorted h xs) (sort_list case_sensitive fuel (head_or null xs) h)
  sort_list-Sorted fuel h start xs l e =
      let test = before case_sensitive h in
      Returns-mono (sort_list-Made case_sensitive fuel h start xs l e) (λ r m. record {
        list = merge_sort test fuel xs;
        made = m;
        permutes = merge_sort-Perm test fuel xs e;
        sorted =
            merge_sort-IsSorted test
              (λ x y. less-asymmetric case_sensitive (h.string x) (h.string y)) fuel xs e;
      })

  -- The object holds a list of the items `xs` in the order of their names.
  pub record HoldsSorted (h : Store) (object : ℕ) (xs : List ℕ) (h' : Store) : Type 0 where
    pub list : List ℕ
    pub start : ℕ
    pub first : h'.child object ≡ head_or null list
    pub linked : Linked h' start list
    pub permutes : Perm list xs
    pub sorted : IsSorted (before case_sensitive h) list

  -- `sort_object` makes an object hold its members in the order of their names, without an access to
  -- what is no item: `child` leads to the first of them, and each to the next, and back but for the first.
  pub sort_object-HoldsSorted :
      (fuel : ℕ) (h : Store) (object : ℕ) (xs : List ℕ)
      → Items h object xs
      → length xs < fuel
      → Returns (λ r. HoldsSorted h object xs r.1) (sort_object case_sensitive fuel object h)
  unfolding sort_object
  sort_object-HoldsSorted fuel h object xs i e =
      let l : Linked h (last_or null xs) xs = record {
        items = i.items;
        distinct = i.distinct;
        nexts = i.nexts;
        prevs = i.prevs;
      } in
      simp (not_null h object i.owner, load-ok, i.owner, i.first)
        (then-Returns (sort_list-Sorted fuel h (last_or null xs) xs l e) _ λ r s.
          let owner = subst (λ f. valid f object ≡ true) (sym s.made.within.live) i.owner in
          simp (set_child-ok, owner)
            (returns (record {
              list = s.list;
              start = s.made.list.0;
              first = ground (arith, s.made.result);
              linked = record {
                items = s.made.list.1.items;
                distinct = s.made.list.1.distinct;
                nexts = s.made.list.1.nexts;
                prevs = s.made.list.1.prevs;
              };
              permutes = s.permutes;
              sorted = s.sorted;
            })))
