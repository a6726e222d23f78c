-- ===== src/Manip/Links/Operations.antt =====
-- src/manip.rs: the operations on the chain of an array's or object's items.
use rust_json_port_mortem.Base.{
  ℕ, zero, suc, Bool, true, false, not, ◌&&◌, ◌||◌, ◌==◌, if◌then◌else◌,
}
use rust_json_port_mortem.Model.{ℤ, pos, negsuc}
use rust_json_port_mortem.Manip.Links.{
  null, Action, pure, ◌>>=◌, ◌>>◌, set_next, set_prev, set_child, next_of, prev_of, child_of,
}

-- `suffix_object`
unfoldable pub suffix_object : ℕ → ℕ → Action (Unit {0})
suffix_object prev item = set_next prev item >> set_prev item prev

-- `add_item_to_array`
unfoldable pub add_item_to_array : ℕ → ℕ → Action Bool
unfolding suffix_object
add_item_to_array array item =
    if item == null || array == null || array == item
    then pure false
    else child_of array >>= λ child.
        if child == null
        then set_child array item >> set_prev item item >> set_next item null >> pure true
        else prev_of child >>= λ last.
            if not (last == null)
            then suffix_object last item >> (child_of array >>= λ c. set_prev c item) >> pure true
            else pure true

-- The loop of `get_array_item`
unfoldable pub array_loop : ℕ → ℕ → Action ℕ
array_loop zero child = pure child
array_loop (suc index) child =
    let rest = array_loop index in if child == null then pure null else next_of child >>= rest

-- `get_array_item`
unfoldable pub get_array_item : ℕ → ℕ → Action ℕ
get_array_item array index =
    if array == null then pure null else child_of array >>= array_loop index

-- `cjson_detach_item_via_pointer`
unfoldable pub cjson_detach_item_via_pointer : ℕ → ℕ → Action ℕ
cjson_detach_item_via_pointer parent item =
    if parent == null || item == null
    then pure null
    else child_of parent >>= λ child. prev_of item >>= λ prev.
        if not (item == child) && prev == null
        then pure null
        else next_of item >>= λ next.
            (if not (item == child) then set_next prev next else pure tt)
            >> (if not (next == null) then set_prev next prev else pure tt)
            >> (if item == child
                then set_child parent next
                else if next == null
                then child_of parent >>= (λ c. set_prev c prev)
                else pure tt)
            >> set_prev item null
            >> set_next item null
            >> pure item

-- `cjson_detach_item_from_array`, where `which` is a `c_int`: negative, or below 2 ^ 31
unfoldable pub cjson_detach_item_from_array : ℕ → ℤ → Action ℕ
cjson_detach_item_from_array array (negsuc n) = pure null
cjson_detach_item_from_array array (pos which) =
    get_array_item array which >>= cjson_detach_item_via_pointer array

-- `cjson_insert_item_in_array`
unfoldable pub cjson_insert_item_in_array : ℕ → ℤ → ℕ → Action Bool
cjson_insert_item_in_array array (negsuc n) newitem = pure false
cjson_insert_item_in_array array (pos which) newitem =
    if newitem == null
    then pure false
    else get_array_item array which >>= λ after_inserted.
        if after_inserted == null
        then add_item_to_array array newitem
        else child_of array >>= λ child. prev_of after_inserted >>= λ prev.
            if not (after_inserted == child) && prev == null
            then pure false
            else set_next newitem after_inserted
              >> set_prev newitem prev
              >> set_prev after_inserted newitem
              >> (if after_inserted == child
                  then set_child array newitem
                  else prev_of newitem >>= (λ p. set_next p newitem))
              >> pure true
