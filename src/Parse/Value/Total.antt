-- ===== src/Parse/Value/Total.antt =====
-- src/parse.rs: `parse_value` ends, stays within its buffer, and accounts for its memory.
use rust_json_port_mortem.Base.{
  ℕ, zero, suc, ◌+◌, ◌≤◌, ◌<◌, ◌≡◌, refl, Option, none, some, arith, Returns, returns, Returns-bind,
  Bool-cases, leb, ◌==◌, false, inl, inr, ok, ◌∙◌, sym, match_option,
}
use rust_json_port_mortem.Model.{
  Bytes, ℤ, CJson, node, nil, nesting, cjson_nesting_limit, cjson_array, cjson_object, cjson_null,
  cjson_false, cjson_true, cjson_string, pos,
}
use rust_json_port_mortem.Alloc.{Grant}
use rust_json_port_mortem.Manip.Delete.{owned, is_reference, is_string_is_const}
use rust_json_port_mortem.Parse.State.{Input, ParseBuffer, read-ok}
use rust_json_port_mortem.Parse.Kind.{
  Kind, null, false_, true_, string, number, array, object, nothing,
}
use rust_json_port_mortem.Parse.Number.{Libc, StrtodWithin}
use rust_json_port_mortem.Parse.Number.Result.{parse_number-Parsed}
use rust_json_port_mortem.Parse.Text.Result.{
  StringResult, accepted, rejected, parse_string-StringResult,
}
use rust_json_port_mortem.Parse.Parsed.{Fresh, fresh, owned-node, Parsed, parsed, failed}
use rust_json_port_mortem.Parse.Value.{Parser, parse_array, parse_object, dispatch, parse_value}
use rust_json_port_mortem.Parse.Value.Step.{next_is-Returns, KindAt, value_kind-KindAt}
use rust_json_port_mortem.Parse.Value.Lists.{IsShallow}
use rust_json_port_mortem.Parse.Value.Loops.{array_loop-ListParsed, object_loop-ListParsed}
use rust_json_port_mortem.Parse.Value.Containers.{no_list, open_container-Parsed}

module _ {D : Type 0} (libc : Libc D) (grant : Grant) (i : Input) (value : Parser D)
    (b : ParseBuffer) (inside : b.offset ≤ i.length) (h : b.depth ≤ cjson_nesting_limit)
    (value_ok : (item : CJson D) (c : ParseBuffer)
      → c.depth ≡ suc b.depth
      → suc b.depth ≤ cjson_nesting_limit
      → c.offset ≤ i.length
      → Fresh item
      → Returns (Parsed i item c) (value item c)) where
  no_items-IsShallow : {n : ℕ} → n < cjson_nesting_limit → IsShallow (suc n) (no_list {D = D})
  unfolding nesting
  no_items-IsShallow h = omega arith

  parse_array-Parsed :
      {item : CJson D}
      → b.offset < i.length
      → Fresh item
      → Returns (Parsed i item b) (parse_array libc grant i value item b)
  unfolding parse_array
  parse_array-Parsed inside_ (fresh t vi vd s r k) =
      elim (Bool-cases (leb cjson_nesting_limit b.depth)) [
        | inl deep ↦ rw deep (returns (failed (omega arith) (omega arith)))
        | inr room ↦
            rw (room, read-ok i b.offset inside_)
              (elim (Bool-cases (i.content b.offset == b'[')) [
                | inr no_ ↦ rw no_ (returns (failed (omega arith) (omega arith)))
                | inl yes_ ↦
                    let shallow : b.depth < cjson_nesting_limit = ground arith in
                    rw yes_ (
                      open_container-Parsed i t vi vd s r k cjson_array refl refl b shallow _ b']' _
                        (λ c in_ d.
                          array_loop-ListParsed libc grant i (suc b.depth) value
                            (λ item c' d' o f. value_ok item c' d' shallow o f) (i.length + 1) nil c
                            (omega arith) in_ d (no_items-IsShallow shallow))
                        refl inside_ (omega arith) refl)
              ])
      ]

  parse_object-Parsed :
      {item : CJson D}
      → b.offset < i.length
      → Fresh item
      → Returns (Parsed i item b) (parse_object libc grant i value item b)
  unfolding parse_object
  parse_object-Parsed inside_ (fresh t vi vd s r k) =
      elim (Bool-cases (leb cjson_nesting_limit b.depth)) [
        | inl deep ↦ rw deep (returns (failed (omega arith) (omega arith)))
        | inr room ↦ rw room (
            Returns-bind (next_is-Returns i b.offset (λ x. x == b'{')) λ opens p.
              elim (Bool-cases opens) [
                | inr no_ ↦ rw no_ (returns (failed (omega arith) (omega arith)))
                | inl yes_ ↦
                    let shallow : b.depth < cjson_nesting_limit = ground arith in
                    rw yes_ (
                      open_container-Parsed i t vi vd s r k cjson_object refl refl b shallow _ b'}'
                        _
                        (λ c in_ d.
                          object_loop-ListParsed libc grant i (suc b.depth) value
                            (λ item c' d' o f. value_ok item c' d' shallow o f) (i.length + 1) nil c
                            (omega arith) in_ d (no_items-IsShallow shallow))
                        refl inside_ (omega arith) refl)
              ])
      ]

  scalar :
      {item : CJson D} (n : ℕ) (done : CJson D)
      → nesting done ≡ 0
      → owned done ≡ owned item
      → 0 < n
      → b.offset + n ≤ i.length
      → Returns (Parsed i item b) (ok (some done, record b { offset = b.offset + n }))
  scalar n done e o moves w = returns (parsed (omega arith) w refl (omega arith) (omega arith))

  text_value :
      (t : ℕ) (vi : ℤ) (vd : D) (s : Option Bytes)
      → is_reference t ≡ false
      → is_string_is_const t ≡ false
      → (o : Option Bytes) (b' : ParseBuffer) → StringResult i b (o, b')
      → Parsed i
          (node t none vi vd s nil)
          b
          (match_option o none (λ bytes. some (node cjson_string (some bytes) vi vd s nil)), b')
  unfolding nesting
  text_value t vi vd s r k _ b' (accepted {out} e is o w d a) =
      parsed (omega arith) (omega arith) d (omega arith) (
        omega (
          arith,
          owned-node t none vi vd s nil r k,
          owned-node cjson_string (some out) vi vd s nil refl refl,
        ))
  text_value t vi vd s r k _ b' (rejected o w d a) = failed w a

  dispatch-Parsed :
      StrtodWithin libc
      → {item : CJson D} → Fresh item
      → (kind : Kind) → KindAt i b.offset kind
      → Returns (Parsed i item b) (dispatch libc grant i value kind item b)
  unfolding dispatch nesting
  dispatch-Parsed within (fresh t vi vd s r k) null at =
      scalar 4 _ refl
        (owned-node cjson_null none vi vd s nil refl refl ∙ sym (owned-node t none vi vd s nil r k))
        (omega arith) at
  dispatch-Parsed within (fresh t vi vd s r k) false_ at =
      scalar 5 _ refl
        (owned-node cjson_false none vi vd s nil refl refl
          ∙ sym (owned-node t none vi vd s nil r k))
        (omega arith) at
  dispatch-Parsed within (fresh t vi vd s r k) true_ at =
      scalar 4 _ refl
        (owned-node cjson_true none (pos 1) vd s nil refl refl
          ∙ sym (owned-node t none vi vd s nil r k))
        (omega arith) at
  dispatch-Parsed within (fresh t vi vd s r k) string at =
      Returns-bind (parse_string-StringResult i grant b at)
        λ (o, b') p. returns (text_value t vi vd s r k o b' p)
  dispatch-Parsed within f number at = parse_number-Parsed libc within grant i b h (omega arith) f
  dispatch-Parsed within f array at = parse_array-Parsed at f
  dispatch-Parsed within f object at = parse_object-Parsed at f
  dispatch-Parsed within f nothing at = returns (failed (omega arith) (omega arith))

-- The function ends with fuel for the nesting that is left, reads inside of the buffer and writes
-- inside of its blocks only; a value that it returns lies between the offsets, is nested no deeper
-- than the limit, and owns just the blocks that were allocated for it and not given back; a failure
-- gives back all that was allocated.
pub parse_value-Parsed :
    {D : Type 0} (libc : Libc D) (grant : Grant) (i : Input) (f : ℕ) (item : CJson D)
    (b : ParseBuffer)
    → StrtodWithin libc
    → cjson_nesting_limit < f + b.depth
    → b.depth ≤ cjson_nesting_limit
    → b.offset ≤ i.length
    → Fresh item
    → Returns (Parsed i item b) (parse_value libc grant i f item b)
unfolding parse_value
parse_value-Parsed libc grant i zero item b within fuel h o fr = absurd (omega arith)
parse_value-Parsed libc grant i (suc f) item b within fuel h o fr =
    Returns-bind (value_kind-KindAt i b.offset) λ kind at.
      dispatch-Parsed libc grant i (parse_value libc grant i f) b o h
        (λ item' c d d' o' fr'.
          parse_value-Parsed libc grant i f item' c within (omega arith) (omega arith) o' fr')
        within fr kind at
