-- ===== src/Manip/Links/Add.antt =====
-- src/manip.rs: `add_item_to_array` appends.
use rust_json_port_mortem.Base.{
  ℕ, ◌≡◌, ◌≢◌, refl, sym, true, List, [], ◌∷◌, ◌++◌, arith, All-append, Returns, returns,
}
use rust_json_port_mortem.Manip.Links.{Store, null, is_item, update}
use rust_json_port_mortem.Manip.Links.Chain.{
  last_or, NotIn, AreDistinct, Items, Within, Nexts-append, Nexts-last, Prevs-append, Prevs-frame,
  Prevs-head, last_or-NotIn, last_or-All, last_or-append,
}
use rust_json_port_mortem.Manip.Links.Steps.{
  not_null, unequal, load-ok, set_next-ok, set_prev-ok, set_child-ok,
}
use rust_json_port_mortem.Manip.Links.Operations.{add_item_to_array}

distinct_snoc :
    (item : ℕ) (xs : List ℕ) → NotIn item xs → AreDistinct xs → AreDistinct (xs ++ item ∷ [])
distinct_snoc item [] n u = (tt, tt)
distinct_snoc item (x ∷ xs) n u =
    (All-append _ xs (item ∷ []) u.0 ((λ e. n.0 (sym e)), tt), distinct_snoc item xs n.1 u.1)

-- To an array or object that holds the items `xs`, an item that is none of these and leads to no other
-- is added behind them, without an access to what is no item; other links stay.
pub add_item_to_array-Items :
    (h : Store) (array item : ℕ) (xs : List ℕ)
    → Items h array xs
    → is_item h item ≡ true
    → h.next item ≡ null
    → NotIn item xs
    → array ≢ item
    → Returns
        (λ r. (r.0 ≡ true) × Items r.1 array (xs ++ item ∷ []) × Within h r.1 array (item ∷ xs))
        (add_item_to_array array item h)
unfolding add_item_to_array
add_item_to_array-Items h array item [] i v end n other =
    simp
      (
        not_null h item v,
        not_null h array i.owner,
        unequal array item other,
        load-ok,
        set_next-ok,
        set_prev-ok,
        set_child-ok,
        i.first,
        v,
        i.owner,
      )
      (returns (
        refl,
        record {
          owner = i.owner;
          items = (v, tt);
          distinct = (tt, tt);
          first = ground arith;
          nexts = (ground arith, tt);
          prevs = (ground arith, tt);
        },
        record {
          live = refl;
          next = λ a o. ground (arith, o.0);
          prev = λ a o. ground (arith, o.0);
          child = λ a o. ground (arith, o);
          type_ = refl;
          valuestring = refl;
          string = refl;
          memory = refl;
          values_freed = refl;
          names_freed = refl;
        },
      ))
add_item_to_array-Items h array item (x ∷ xs) i v end n other =
    let at_last = last_or-All (λ y. is_item h y ≡ true) x xs i.items.0 i.items.1 in
    let last = last_or x xs in
    let last_is_other = last_or-NotIn item x xs n.0 n.1 in
    let back = update h.prev item last in
    simp
      (
        not_null h item v,
        not_null h array i.owner,
        unequal array item other,
        load-ok,
        set_next-ok,
        set_prev-ok,
        i.first,
        v,
        i.owner,
        i.items.0,
        i.prevs.0,
        at_last,
        not_null h x i.items.0,
        not_null h (last_or x xs) at_last,
      )
      (returns (
        refl,
        record {
          owner = i.owner;
          items = All-append _ (x ∷ xs) (item ∷ []) i.items (v, tt);
          distinct = distinct_snoc item (x ∷ xs) n i.distinct;
          first = i.first;
          nexts =
              Nexts-append _ (x ∷ xs) (item ∷ []) null
                (Nexts-last h.next null null item (x ∷ xs) i.distinct i.nexts)
                (ground (arith, last_is_other, end), tt);
          prevs = rw (last_or-append null item (x ∷ xs) []) (
              Prevs-append _ item (x ∷ xs) (item ∷ [])
                (Prevs-head back null (last_or null (x ∷ xs)) item (x ∷ xs) i.distinct
                  (Prevs-frame h.prev item last last (x ∷ xs) n i.prevs))
                (ground (arith, n.0), tt));
        },
        record {
          live = refl;
          next = λ a o. ground (arith, last_or-NotIn a x xs o.1.0 o.1.1);
          prev = λ a o. ground (arith, o.0, o.1.0);
          child = λ a o. refl;
          type_ = refl;
          valuestring = refl;
          string = refl;
          memory = refl;
          values_freed = refl;
          names_freed = refl;
        },
      ))
