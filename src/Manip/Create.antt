-- ===== src/Manip/Create.antt =====
-- src/manip.rs: the constructors of items.
pub mod Blocks
use rust_json_port_mortem.Base.{
  ℕ, ◌+◌, Bool, true, false, Option, none, some, if◌then◌else◌, match_option,
}
use rust_json_port_mortem.Model.{
  Bytes, pos, CJson, node, Children, nil, cons, cjson_false, cjson_true, cjson_null, cjson_number,
  cjson_string, cjson_array, cjson_object, cjson_raw, cjson_is_reference,
}
use rust_json_port_mortem.Alloc.{Memory, Grant, cjson_alloc}
use rust_json_port_mortem.Manip.Delete.{cjson_delete}
use rust_json_port_mortem.Manip.Duplicate.{cjson_strdup}
use rust_json_port_mortem.Parse.Number.{Libc, saturate}
use rust_json_port_mortem.Parse.Value.{node_size}

module _ {D : Type 0} (libc : Libc D) (grant : Grant) where
  -- `new_item`, and the item that the code makes of the zeroed one
  unfoldable pub create : CJson D → Memory → Option (CJson D) × Memory
  create item m =
      let (granted, m') = cjson_alloc grant node_size m in
      if granted then (some item, m') else (none, m')

  abbrev pub of_type : ℕ → CJson D
  of_type t = node t none (pos 0) libc.zero_bits none nil

  unfoldable pub cjson_create_null : Memory → Option (CJson D) × Memory
  cjson_create_null = create (of_type cjson_null)

  unfoldable pub cjson_create_true : Memory → Option (CJson D) × Memory
  cjson_create_true = create (of_type cjson_true)

  unfoldable pub cjson_create_false : Memory → Option (CJson D) × Memory
  cjson_create_false = create (of_type cjson_false)

  unfoldable pub cjson_create_bool : Bool → Memory → Option (CJson D) × Memory
  cjson_create_bool boolean = create (of_type (if boolean then cjson_true else cjson_false))

  unfoldable pub cjson_create_array : Memory → Option (CJson D) × Memory
  cjson_create_array = create (of_type cjson_array)

  unfoldable pub cjson_create_object : Memory → Option (CJson D) × Memory
  cjson_create_object = create (of_type cjson_object)

  unfoldable pub cjson_create_number : D → Memory → Option (CJson D) × Memory
  cjson_create_number num = create (node cjson_number none (saturate libc num) num none nil)

  -- `cjson_create_string` and `cjson_create_raw`, which differ in the type only; a null text is not
  -- duplicated.
  unfoldable pub create_text : ℕ → Option Bytes → Memory → Option (CJson D) × Memory
  create_text t string m =
      let (granted, m1) = cjson_alloc grant node_size m in
      let (copy, m2) = match_option string (none, m1) (λ s. cjson_strdup grant s m1) in
      if granted
      then match_option copy (none, cjson_delete (cons (of_type t) nil) m2)
          (λ c. (some (node t (some c) (pos 0) libc.zero_bits none nil), m2))
      else (none, m1)

  unfoldable pub cjson_create_string : Option Bytes → Memory → Option (CJson D) × Memory
  cjson_create_string = create_text cjson_string

  unfoldable pub cjson_create_raw : Option Bytes → Memory → Option (CJson D) × Memory
  cjson_create_raw = create_text cjson_raw

  -- The items that refer to what others own.
  unfoldable pub cjson_create_string_reference : Option Bytes → Memory → Option (CJson D) × Memory
  cjson_create_string_reference string =
      create (node (cjson_string + cjson_is_reference) string (pos 0) libc.zero_bits none nil)

  unfoldable pub cjson_create_object_reference : Children D → Memory → Option (CJson D) × Memory
  cjson_create_object_reference child =
      create (node (cjson_object + cjson_is_reference) none (pos 0) libc.zero_bits none child)

  unfoldable pub cjson_create_array_reference : Children D → Memory → Option (CJson D) × Memory
  cjson_create_array_reference child =
      create (node (cjson_array + cjson_is_reference) none (pos 0) libc.zero_bits none child)
