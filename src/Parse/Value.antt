-- ===== src/Parse/Value.antt =====
-- src/parse.rs: `parse_value`, `parse_array` and `parse_object`.
pub mod Step
pub mod Lists
pub mod Loops
pub mod Containers
pub mod Total
use rust_json_port_mortem.Base.{
  ℕ, zero, suc, ◌+◌, ◌-◌, Bool, true, false, not, ◌||◌, ◌&&◌, Option, none, some, List, [], ◌∷◌,
  Outcome, ok, out_of_fuel, ◌>>=◌, ◌==◌, leb, in_range, if◌then◌else◌, match_option, length,
}
use rust_json_port_mortem.Model.{
  Bytes, ℤ, pos, CJson, node, Children, nil, cons, snoc, cjson_invalid, cjson_null, cjson_false,
  cjson_true, cjson_string, cjson_array, cjson_object, cjson_nesting_limit,
}
use rust_json_port_mortem.Alloc.{Memory, Grant, cjson_alloc}
use rust_json_port_mortem.Manip.Delete.{cjson_delete}
use rust_json_port_mortem.Parse.State.{Input, ParseBuffer, read, can_read, can_access_at_index}
use rust_json_port_mortem.Parse.Kind.{
  Kind, null, false_, true_, string, number, array, object, nothing, next_is, value_kind, skip,
}
use rust_json_port_mortem.Parse.Number.{Libc, parse_number}
use rust_json_port_mortem.Parse.Text.{parse_string}

-- `size_of::<CJson>()`
abbrev pub node_size : ℕ
node_size = 64

-- A function of the parser: the item with its new fields, or `none` for a result of 0, where the item
-- is left alone.
abbrev pub Parser : Type 0 → Type 0
Parser D = CJson D → ParseBuffer → Outcome (Option (CJson D) × ParseBuffer)

module _ {D : Type 0} where
  abbrev pub with_type : ℕ → CJson D → CJson D
  with_type t (node _ v vi vd s c) = node t v vi vd s c

  abbrev pub with_int : ℤ → CJson D → CJson D
  with_int vi (node t v _ vd s c) = node t v vi vd s c

  abbrev pub with_string_value : Bytes → CJson D → CJson D
  with_string_value text (node _ _ vi vd s c) = node cjson_string (some text) vi vd s c

  -- `string = valuestring; valuestring = null`, behind `parse_string`
  abbrev pub with_name : Bytes → CJson D → CJson D
  with_name name (node _ _ vi vd _ c) = node cjson_string none vi vd (some name) c

  abbrev pub with_children : ℕ → Children D → CJson D → CJson D
  with_children t c (node _ v vi vd s _) = node t v vi vd s c

  -- The way out through `cjson_delete(head)`.
  abbrev pub fail_with : Children D → ParseBuffer → Outcome (Option (Children D) × ParseBuffer)
  fail_with head b = ok (none, record b { memory = cjson_delete head b.memory })

module _ {D : Type 0} (i : Input) where
  -- What the loops do behind an item: another round after a comma.
  unfoldable pub after_item :
      (Children D → ParseBuffer → Outcome (Option (Children D) × ParseBuffer))
      → Children D
      → CJson D
      → Option (CJson D) × ParseBuffer
      → Outcome (Option (Children D) × ParseBuffer)
  after_item next head item (none, b) = fail_with (snoc head item) b
  after_item next head item (some done, b) = do
    b' ← skip i b
    comma ← next_is i b'.offset (λ c. c == b',')
    if comma then next (snoc head done) b' else ok (some (snoc head done), b')

  -- What both functions do behind their loop: the closing bracket, and the item.
  unfoldable pub close_container :
      ℕ → ℕ → CJson D → Option (Children D) × ParseBuffer → Outcome (Option (CJson D) × ParseBuffer)
  close_container bracket type item (none, b) = ok (none, b)
  close_container bracket type item (some head, b) = do
    closed ← next_is i b.offset (λ c. c == bracket)
    ok (
        if not closed then (none, record b { memory = cjson_delete head b.memory }) else (
          some (with_children type head item),
          record b { depth = b.depth - 1; offset = b.offset + 1 },
        ))

  -- What both functions do behind their opening bracket, with the loop from its first item on.
  unfoldable pub open_container :
      (Children D → ParseBuffer → Outcome (Option (Children D) × ParseBuffer))
      → ℕ
      → ℕ
      → CJson D
      → ParseBuffer
      → Outcome (Option (CJson D) × ParseBuffer)
  open_container loop bracket type item b = do
    b' ← skip i (record b { offset = b.offset + 1 })
    empty ← next_is i b'.offset (λ c. c == bracket)
    if empty
        then ok (
          some (with_children type nil item),
          record b' { depth = b'.depth - 1; offset = b'.offset + 1 },
        )
        else if not (can_access_at_index i b'.offset 0)
        then ok (none, record b' { offset = b'.offset - 1 })
        else (do
          list ← loop nil (record b' { offset = b'.offset - 1 })
          close_container bracket type item list)

module _ {D : Type 0} (libc : Libc D) (grant : Grant) (i : Input) where
  -- `cjson_new_item`
  abbrev pub new_item : CJson D
  new_item = node cjson_invalid none (pos 0) libc.zero_bits none nil

  module _ (value : Parser D) where
    -- The loop of `parse_array`, with the list that `head` heads.
    unfoldable pub array_loop :
        ℕ → Children D → ParseBuffer → Outcome (Option (Children D) × ParseBuffer)
    array_loop zero head b = out_of_fuel
    array_loop (suc f) head b =
        let next = array_loop f in
        let (granted, memory) = cjson_alloc grant node_size b.memory in
        if not granted then fail_with head (record b { memory = memory }) else (do
          b' ← skip i (record b { offset = b.offset + 1; memory = memory })
          parsed ← value new_item b'
          after_item i next head new_item parsed)

    -- What the loop of `parse_object` does behind the name of an item.
    unfoldable pub after_name :
        (Children D → ParseBuffer → Outcome (Option (Children D) × ParseBuffer))
        → Children D
        → Option Bytes × ParseBuffer
        → Outcome (Option (Children D) × ParseBuffer)
    after_name next head (none, b) = fail_with (snoc head new_item) b
    after_name next head (some name, b) = do
      let item = with_name name new_item
      b' ← skip i b
      colon ← next_is i b'.offset (λ c. c == b':')
      if not colon then fail_with (snoc head item) b' else (do
        b'' ← skip i (record b' { offset = b'.offset + 1 })
        parsed ← value item b''
        after_item i next head item parsed)

    unfoldable pub object_loop :
        ℕ → Children D → ParseBuffer → Outcome (Option (Children D) × ParseBuffer)
    object_loop zero head b = out_of_fuel
    object_loop (suc f) head b =
        let next = object_loop f in
        let (granted, memory) = cjson_alloc grant node_size b.memory in
        if not granted
        then fail_with head (record b { memory = memory })
        else if not (can_access_at_index i b.offset 1)
        then fail_with (snoc head new_item) (record b { memory = memory })
        else (do
          b' ← skip i (record b { offset = b.offset + 1; memory = memory })
          name ← parse_string grant i b'
          after_name next head name)

    -- `parse_array`
    unfoldable pub parse_array : Parser D
    parse_array item b = if leb cjson_nesting_limit b.depth then ok (none, b) else (do
      let b' = record b { depth = b.depth + 1 }
      c ← read i b'.offset
      if not (c == b'[')
          then ok (none, b')
          else open_container i (array_loop (i.length + 1)) b']' cjson_array item b')

    -- `parse_object`
    unfoldable pub parse_object : Parser D
    parse_object item b = if leb cjson_nesting_limit b.depth then ok (none, b) else (do
      let b' = record b { depth = b.depth + 1 }
      opens ← next_is i b'.offset (λ c. c == b'{')
      if not opens
          then ok (none, b')
          else open_container i (object_loop (i.length + 1)) b'}' cjson_object item b')

    -- The branches of `parse_value`.
    unfoldable pub dispatch : Kind → Parser D
    dispatch null item b = ok (some (with_type cjson_null item), record b { offset = b.offset + 4 })
    dispatch false_ item b =
        ok (some (with_type cjson_false item), record b { offset = b.offset + 5 })
    dispatch true_ item b =
        ok (some (with_int (pos 1) (with_type cjson_true item)), record b { offset = b.offset + 4 })
    dispatch string item b = do
      (text, b') ← parse_string grant i b
      ok (match_option text none (λ bytes. some (with_string_value bytes item)), b')
    dispatch number item b = parse_number libc grant i item b
    dispatch array item b = parse_array item b
    dispatch object item b = parse_object item b
    dispatch nothing item b = ok (none, b)

  -- `parse_value`, on fuel for the depth of its recursion.
  unfoldable pub parse_value : ℕ → Parser D
  parse_value zero item b = out_of_fuel
  parse_value (suc f) item b =
      let value = parse_value f in do kind ← value_kind i b.offset; dispatch value kind item b
