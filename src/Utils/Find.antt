-- ===== src/Utils/Find.antt =====
-- src/utils.rs: `cjson_utils_find_pointer_from_object_to`.
pub mod Located
pub mod Result
use rust_json_port_mortem.Base.{
  ℕ, ◌+◌, Bool, true, false, Option, none, some, [], ◌∷◌, ◌++◌, Outcome, ok, fault, ◌>>=◌, leb,
  ◌==◌, bit_and, if◌then◌else◌, match_option, length,
}
use rust_json_port_mortem.Model.{Bytes, CJson, node, Children, nil, cons, cjson_array, cjson_object}
use rust_json_port_mortem.Alloc.{Memory, Grant, cjson_alloc, cjson_dealloc}
use rust_json_port_mortem.Manip.Lookup.{string}
use rust_json_port_mortem.Print.Number.{to_string}
use rust_json_port_mortem.Utils.Pointer.{pointer_encoded_length, encode_string_as_pointer}

module _ (grant : Grant) where
  -- `cjson_utils_strdup`
  unfoldable pub cjson_utils_strdup : Bytes → Memory → Option Bytes × Memory
  cjson_utils_strdup string m =
      let (granted, m') = cjson_alloc grant (length string + 1) m in
      (if granted then some string else none, m')

  -- A text with its nul is written to a new block, which the code takes to be there, and the block of
  -- the shorter text is given back.
  unfoldable pub full_pointer : ℕ → Bytes → Memory → Outcome (Option Bytes × Memory)
  full_pointer size text m =
      let (granted, m') = cjson_alloc grant size m in
      if granted
      then if leb (length text + 1) size then ok (some text, cjson_dealloc m') else fault
      else fault

  module _ {D : Type 0} where
    -- What the object of this type does with the path `target_pointer` of its child of this index.
    unfoldable pub extend : ℕ → ℕ → CJson D → Bytes → Memory → Outcome (Option Bytes × Memory)
    extend object_type child_index current_child target_pointer m =
        if bit_and object_type 0xFF == cjson_array
        then full_pointer (length target_pointer + 20 + 2)
            (b'/' ∷ to_string child_index ++ target_pointer) m
        else if bit_and object_type 0xFF == cjson_object
        then match_option (string current_child) fault (λ name.
          full_pointer (length target_pointer + pointer_encoded_length name + 2)
            (b'/' ∷ encode_string_as_pointer name ++ target_pointer) m)
        else ok (none, cjson_dealloc m)

    -- The search and its loop. `is_target` is the comparison of an item's address with a `target` that
    -- is not null.
    module _ (is_target : CJson D → Bool) where
      unfoldable mutual
        pub find_pointer : CJson D → Memory → Outcome (Option Bytes × Memory)
        find_pointer (node t v i d s c) m =
            let search = find_below t 0 c m in
            if is_target (node t v i d s c) then ok (cjson_utils_strdup [] m) else search

        pub find_below : ℕ → ℕ → Children D → Memory → Outcome (Option Bytes × Memory)
        find_below object_type child_index nil m = ok (none, m)
        find_below object_type child_index (cons current_child next) m =
            let rest = find_below object_type (child_index + 1) next in
            find_pointer current_child m >>= λ r.
            match_option r.0 (rest r.1)
              λ target_pointer. extend object_type child_index current_child target_pointer r.1

    -- `cjson_utils_find_pointer_from_object_to`
    unfoldable pub cjson_utils_find_pointer_from_object_to :
        Option (CJson D) → Option (CJson D → Bool) → Memory → Outcome (Option Bytes × Memory)
    cjson_utils_find_pointer_from_object_to none target m = ok (none, m)
    cjson_utils_find_pointer_from_object_to (some object) none m = ok (none, m)
    cjson_utils_find_pointer_from_object_to (some object) (some is_target) m =
        find_pointer is_target object m
