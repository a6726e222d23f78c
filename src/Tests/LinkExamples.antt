-- ===== src/Tests/LinkExamples.antt =====
-- src/manip.rs, src/utils.rs: the theorems on linked items at concrete inputs, and runs.
use rust_json_port_mortem.Base.{
  ℕ, ◌≡◌, refl, true, false, some, none, List, [], ◌∷◌, ◌++◌, arith, Returns, Outcome, ok, fault,
  ◌==◌, in_range, if◌then◌else◌,
}
use rust_json_port_mortem.Model.{Bytes, pos}
use rust_json_port_mortem.Tests.{always, no_memory}
use rust_json_port_mortem.Manip.Links.{Store, load, set_next, set_prev, set_child, ◌>>◌}
use rust_json_port_mortem.Manip.Links.Chain.{Items, NotIn, Within}
use rust_json_port_mortem.Manip.Links.Operations.{
  suffix_object, add_item_to_array, cjson_detach_item_from_array, cjson_detach_item_via_pointer,
  cjson_insert_item_in_array,
}
use rust_json_port_mortem.Manip.Links.Index.{insert_at}
use rust_json_port_mortem.Manip.Links.Add.{add_item_to_array-Items}
use rust_json_port_mortem.Manip.Links.Detach.{Detached, cjson_detach_item_via_pointer-Items}
use rust_json_port_mortem.Manip.Links.Insert.{Inserted, cjson_insert_item_in_array-Items}
use rust_json_port_mortem.Manip.Links.Delete.{cjson_delete}
use rust_json_port_mortem.Manip.Links.Delete.Forest.{Holds, empty, owner, Freed, cjson_delete-Freed}
use rust_json_port_mortem.Manip.Links.Delete.Owned.{children}
use rust_json_port_mortem.Manip.Links.Dispose.{
  cjson_delete_item_from_array, cjson_replace_item_via_pointer,
}
use rust_json_port_mortem.Manip.Links.Dispose.Result.{
  IsApart, Disposed, cjson_delete_item_from_array-Items, cjson_replace_item_via_pointer-Items,
}
use rust_json_port_mortem.Utils.Arrays.{
  detach_item_from_array, detach_item_from_array-cjson_detach_item_from_array,
}
use rust_json_port_mortem.Utils.Sort.{
  compare_strings, less, sorted_loop, middle_loop, split_lists, append_rest, merge_loop, sort_list,
  sort_object,
}
use rust_json_port_mortem.Utils.Sort.Order.{
  Sorted, HoldsSorted, sort_list-Sorted, sort_object-HoldsSorted,
}
use rust_json_port_mortem.Manip.Links.Names.{add_item_to_object, detach_item_from_object}
use rust_json_port_mortem.Manip.Links.Names.Add.{Named, add_item_to_object-Named}
use rust_json_port_mortem.Manip.Links.Names.Detach.{detach_item_from_object-first}
use rust_json_port_mortem.Manip.Lookup.{passes, cstr_cmp, difference}

-- 1 holds 2 with the name b and 3 with the name a, 3 holds 5, and 4 is a new item.
abbrev store : Store
store = record {
  live = in_range 1 5;
  next = λ p. if p == 2 then 3 else 0;
  prev = λ p. if p == 2 then 3 else if p == 3 then 2 else if p == 5 then 5 else 0;
  child = λ p. if p == 1 then 2 else if p == 3 then 5 else 0;
  type_ = λ _. 64;
  valuestring = λ p. if p == 5 then some [] else none;
  string = λ p. if p == 2 then some (b'b' ∷ []) else if p == 3 then some (b'a' ∷ []) else none;
  memory = no_memory;
  values_freed = λ _. 0;
  names_freed = λ _. 0;
}

abbrev members : List ℕ
members = 2 ∷ 3 ∷ []

store-Items : Items store 1 members
store-Items = record {
  owner = refl;
  items = (refl, (refl, tt));
  distinct = (((λ e. omega arith), tt), (tt, tt));
  first = refl;
  nexts = (refl, (refl, tt));
  prevs = (refl, (refl, tt));
}

new_item : NotIn 4 members
new_item = ((λ e. omega arith), ((λ e. omega arith), tt))

add_item_to_array-Items_example :
    Returns
      (λ r. (r.0 ≡ true) × Items r.1 1 (members ++ 4 ∷ []) × Within store r.1 1 (4 ∷ members))
      (add_item_to_array 1 4 store)
add_item_to_array-Items_example =
    add_item_to_array-Items store 1 4 members store-Items refl refl new_item (λ e. omega arith)

cjson_detach_item_via_pointer-Items_example :
    Returns (Detached store 1 (2 ∷ []) 3 []) (cjson_detach_item_via_pointer 1 3 store)
cjson_detach_item_via_pointer-Items_example =
    cjson_detach_item_via_pointer-Items store 1 3 (2 ∷ []) [] store-Items

cjson_insert_item_in_array-Items_example :
    Returns
      (Inserted store 1 4 members (insert_at 1 4 members))
      (cjson_insert_item_in_array 1 (pos 1) 4 store)
cjson_insert_item_in_array-Items_example =
    cjson_insert_item_in_array-Items store 1 1 4 members store-Items refl refl new_item
      (λ e. omega arith)

-- 5 alone, which 3 holds
five : Holds store 5 (5 ∷ [])
five = owner {below = []} {after = []} refl refl empty empty

cjson_delete-Freed_example : Returns (λ r. Freed (5 ∷ []) store r.1) (cjson_delete 2 5 store)
cjson_delete-Freed_example = cjson_delete-Freed 2 store five (tt, tt) (omega arith)

three-IsApart : IsApart 1 (2 ∷ []) 3 (5 ∷ []) []
three-IsApart = record {
  distinct = (((λ e. omega arith), tt), (tt, tt));
  outside = (((λ e. omega arith), ((λ e. omega arith), tt)), tt);
  before = (((λ e. omega arith), ((λ e. omega arith), tt)), tt);
  behind = tt;
  array_is_other = ((λ e. omega arith), ((λ e. omega arith), tt));
}

cjson_delete_item_from_array-Items_example :
    Returns
      (λ r. Disposed store 1 (2 ∷ []) (3 ∷ 5 ∷ []) r.1)
      (cjson_delete_item_from_array 3 1 (pos 1) store)
cjson_delete_item_from_array-Items_example =
    cjson_delete_item_from_array-Items 3 store 1 3 (2 ∷ []) (5 ∷ []) [] store-Items
      (children refl five) three-IsApart (omega arith)

cjson_replace_item_via_pointer-Items_example :
    Returns
      (λ r. (r.0 ≡ true) × Disposed store 1 (2 ∷ 4 ∷ []) (3 ∷ 5 ∷ []) r.1)
      (cjson_replace_item_via_pointer 3 1 3 4 store)
cjson_replace_item_via_pointer-Items_example =
    cjson_replace_item_via_pointer-Items 3 store 1 3 4 (2 ∷ []) (5 ∷ []) [] store-Items
      (children refl five) three-IsApart refl ((λ e. omega arith), ((λ e. omega arith), tt))
      new_item (omega arith)

sort_list-Sorted_example : Returns (Sorted true store members) (sort_list true 3 2 store)
sort_list-Sorted_example =
    sort_list-Sorted true 3 store 3 members
      (record {
        items = (refl, (refl, tt));
        distinct = (((λ e. omega arith), tt), (tt, tt));
        nexts = (refl, (refl, tt));
        prevs = (refl, (refl, tt));
      })
      (omega arith)

sort_object-HoldsSorted_example :
    Returns (λ r. HoldsSorted true store 1 members r.1) (sort_object true 3 1 store)
sort_object-HoldsSorted_example =
    sort_object-HoldsSorted true 3 store 1 members store-Items (omega arith)

abbrev new_name : Bytes
new_name = b'c' ∷ []

add_item_to_object-Named_example :
    Returns
      (Named always store 1 4 new_name false members)
      (add_item_to_object always 1 (some new_name) 4 false store)
add_item_to_object-Named_example =
    add_item_to_object-Named always store 1 4 new_name members false store-Items refl refl new_item
      (λ e. omega arith)

-- A search for a, which passes b
detach_item_from_object-first_example :
    Returns
      (Detached store 1 (2 ∷ []) 3 [])
      (detach_item_from_object true 2 1 (some (b'a' ∷ [])) store)
unfolding passes cstr_cmp difference
detach_item_from_object-first_example =
    detach_item_from_object-first true (b'a' ∷ []) store 2 1 3 (2 ∷ []) [] store-Items (refl, tt)
      refl refl (omega arith)

detach_item_from_array-cjson_detach_item_from_array_example :
    detach_item_from_array 1 1 store ≡ cjson_detach_item_from_array 1 (pos 1) store
detach_item_from_array-cjson_detach_item_from_array_example =
    detach_item_from_array-cjson_detach_item_from_array store 1 1 members store-Items (omega arith)

-- What the object holds, and the links back, when it was sorted and 4 was added.
abbrev links : {A : Type 0} → Outcome (A × Store) → List ℕ
links (ok r) =
    r.1.child 1 ∷ r.1.next 3 ∷ r.1.next 2 ∷ r.1.next 4 ∷ r.1.prev 3 ∷ r.1.prev 2 ∷ r.1.prev 4 ∷ []
links fault = []
links _ = []

-- `sort_list` leaves the `prev` of its first item as it was: 3 does not lead back to 2, so that 4 is
-- not linked and the call still returns true.
sorted_then_added :
    links ((sort_object true 3 1 >> add_item_to_array 1 4) store) ≡ 3 ∷ 2 ∷ 0 ∷ 0 ∷ 0 ∷ 3 ∷ 0 ∷ []
unfolding sort_object sort_list sorted_loop middle_loop split_lists append_rest merge_loop less
    compare_strings cstr_cmp difference add_item_to_array suffix_object load set_next set_prev
    set_child
sorted_then_added = refl
