-- ===== src/Utils/Arrays.antt =====
-- src/utils.rs: `detach_item_from_array`, on items at addresses.
use rust_json_port_mortem.Base.{
  ℕ, ◌<◌, ◌^◌, ◌≡◌, refl, sym, subst, true, not, List, [], ◌∷◌, ok, ◌==◌, if◌then◌else◌, inl, inr,
}
use rust_json_port_mortem.Model.{pos}
use rust_json_port_mortem.Manip.Links.{
  Store, null, is_item, Action, pure, ◌>>=◌, ◌>>◌, set_next, set_prev, set_child, next_of, prev_of,
  child_of,
}
use rust_json_port_mortem.Manip.Links.Chain.{last_or, last_or-All, last_or-NotIn, Items}
use rust_json_port_mortem.Manip.Links.Steps.{
  not_null, unequal, equal, load-ok, set_next-ok, set_prev-ok, set_child-ok,
}
use rust_json_port_mortem.Manip.Links.Middle.{Around, Items-Around}
use rust_json_port_mortem.Manip.Links.Index.{array_loop-get_or, get_array_item-get_or, At-cases}
use rust_json_port_mortem.Manip.Links.Operations.{
  array_loop, cjson_detach_item_via_pointer, cjson_detach_item_from_array,
}

-- `detach_item_from_array` behind its loop, for an item that is there
unfoldable pub take_out : ℕ → ℕ → Action ℕ
take_out array c = child_of array >>= λ child.
    (if not (c == child) then prev_of c >>= (λ prev. next_of c >>= set_next prev) else pure tt)
    >> (next_of c >>= λ next. if not (next == null) then prev_of c >>= set_prev next else pure tt)
    >> (if c == child
        then next_of c >>= set_child array
        else next_of c >>= λ next.
            if next == null
            then child_of array >>= (λ first. prev_of c >>= set_prev first)
            else pure tt)
    >> set_prev c null
    >> set_next c null
    >> pure c

-- `detach_item_from_array`
unfoldable pub detach_item_from_array : ℕ → ℕ → Action ℕ
detach_item_from_array array which = child_of array >>= λ child.
    array_loop which child >>= λ c. if c == null then pure null else take_out array c

module _ (h : Store) (array item : ℕ) where
  only :
      (ys : List ℕ)
      → Around h array [] item ys
      → take_out array item h ≡ cjson_detach_item_via_pointer array item h
  unfolding take_out cjson_detach_item_via_pointer
  only [] a =
      simp
        (
          not_null h array a.owner,
          not_null h item a.item_here,
          a.first,
          equal item,
          load-ok,
          set_next-ok,
          set_prev-ok,
          set_child-ok,
          a.owner,
          a.item_here,
          a.next_here,
          a.prev_here,
        )
        refl
  only (y ∷ ys) a =
      simp
        (
          not_null h array a.owner,
          not_null h item a.item_here,
          a.first,
          equal item,
          load-ok,
          set_next-ok,
          set_prev-ok,
          set_child-ok,
          a.owner,
          a.item_here,
          a.next_here,
          a.prev_here,
          a.items_behind.0,
          not_null h y a.items_behind.0,
        )
        refl

  behind_first :
      (x : ℕ) (xs ys : List ℕ)
      → Around h array (x ∷ xs) item ys
      → take_out array item h ≡ cjson_detach_item_via_pointer array item h
  unfolding take_out cjson_detach_item_via_pointer
  behind_first x xs [] a =
      let last = last_or x xs in
      let at_last = last_or-All (λ z. is_item h z ≡ true) x xs a.items_before.0 a.items_before.1 in
      let other = last_or-NotIn item x xs a.not_before.0 a.not_before.1 in
      simp
        (
          not_null h array a.owner,
          not_null h item a.item_here,
          a.first,
          unequal item x (λ e. a.not_before.0 (sym e)),
          load-ok,
          set_next-ok,
          set_prev-ok,
          a.owner,
          a.item_here,
          a.next_here,
          a.prev_here,
          at_last,
          not_null h last at_last,
          a.items_before.0,
          unequal item last (λ e. other (sym e)),
        )
        refl
  behind_first x xs (y ∷ ys) a =
      let last = last_or x xs in
      let at_last = last_or-All (λ z. is_item h z ≡ true) x xs a.items_before.0 a.items_before.1 in
      let other = last_or-NotIn item x xs a.not_before.0 a.not_before.1 in
      simp
        (
          not_null h array a.owner,
          not_null h item a.item_here,
          a.first,
          unequal item x (λ e. a.not_before.0 (sym e)),
          load-ok,
          set_next-ok,
          set_prev-ok,
          a.owner,
          a.item_here,
          a.next_here,
          a.prev_here,
          at_last,
          not_null h last at_last,
          a.items_behind.0,
          not_null h y a.items_behind.0,
          unequal item last (λ e. other (sym e)),
        )
        refl

  taken_out :
      (xs ys : List ℕ)
      → Around h array xs item ys
      → take_out array item h ≡ cjson_detach_item_via_pointer array item h
  taken_out [] ys a = only ys a
  taken_out (x ∷ xs) ys a = behind_first x xs ys a

nothing_detached :
    (h : Store) (array : ℕ)
    → is_item h array ≡ true
    → cjson_detach_item_via_pointer array null h ≡ ok (null, h)
unfolding cjson_detach_item_via_pointer
nothing_detached h array v = rw (not_null h array v) refl

-- On an array that holds a list of items, the non-broken `detach_item_from_array` does the same as
-- `cJSON_DetachItemFromArray`, for each index that the `c_int` of the latter can hold.
pub detach_item_from_array-cjson_detach_item_from_array :
    (h : Store) (array index : ℕ) (xs : List ℕ)
    → Items h array xs
    → index < 2 ^ 31
    → detach_item_from_array array index h ≡ cjson_detach_item_from_array array (pos index) h
unfolding detach_item_from_array cjson_detach_item_from_array
detach_item_from_array-cjson_detach_item_from_array h array index xs i _ =
    elim (At-cases index null xs) [
      | inl a ↦
          let here = Items-Around h array a.before a.here a.after (subst (Items h array) a.all i) in
          simp
            (
              load-ok,
              i.owner,
              i.first,
              array_loop-get_or h index xs i.items i.nexts,
              get_array_item-get_or h array index xs i,
              a.found,
              not_null h a.here here.item_here,
            )
            (taken_out h array a.here a.before a.after here)
      | inr p ↦
          simp
            (
              load-ok,
              i.owner,
              i.first,
              array_loop-get_or h index xs i.items i.nexts,
              get_array_item-get_or h array index xs i,
              p.not_found,
            )
            (sym (nothing_detached h array i.owner))
    ]
