-- ===== src/Parse/Parsed.antt =====
-- src/parse.rs: what `parse_number` and the functions of values promise of an item and of the buffer.
use rust_json_port_mortem.Base.{ℕ, ◌+◌, ◌≤◌, ◌<◌, ◌≡◌, false, Option, none, some}
use rust_json_port_mortem.Model.{Bytes, ℤ, CJson, node, Children, nil, nesting, cjson_nesting_limit}
use rust_json_port_mortem.Alloc.{Keeps}
use rust_json_port_mortem.Manip.Delete.{
  is_reference, is_string_is_const, is_some, owned, owned_all, one_if,
}
use rust_json_port_mortem.Parse.State.{Input, ParseBuffer}

-- An item that has been allocated and may have its name, but has no value yet.
pub data Fresh {D : Type 0} : CJson D → Type 0 where
  fresh :
      (t : ℕ) (vi : ℤ) (vd : D) (s : Option Bytes)
      → is_reference t ≡ false
      → is_string_is_const t ≡ false
      → Fresh (node t none vi vd s nil)

pub owned-node :
    {D : Type 0} (t : ℕ) (v : Option Bytes) (vi : ℤ) (vd : D) (s : Option Bytes) (c : Children D)
    → is_reference t ≡ false
    → is_string_is_const t ≡ false
    → owned (node t v vi vd s c) ≡ 1 + owned_all c + (one_if (is_some v) + one_if (is_some s))
unfolding owned
owned-node t v vi vd s c r k = rw (r, k)

module _ {D : Type 0} (i : Input) where
  -- A value lies between the old offset and the new one, within the buffer; it is nested no deeper
  -- than the limit allows, and owns the blocks that have been allocated for it. A failure keeps none.
  pub data Parsed (item : CJson D) (b : ParseBuffer) : Option (CJson D) × ParseBuffer → Type 0 where
    parsed :
        {done : CJson D} {b' : ParseBuffer}
        → b.offset < b'.offset
        → b'.offset ≤ i.length
        → b'.depth ≡ b.depth
        → nesting done + b.depth ≤ cjson_nesting_limit
        → b'.memory.allocs + b.memory.frees + owned item
          ≡ b'.memory.frees + b.memory.allocs + owned done
        → Parsed item b (some done, b')
    failed :
        {b' : ParseBuffer}
        → b'.offset ≤ i.length
        → Keeps 0 b.memory b'.memory
        → Parsed item b (none, b')
