-- ===== src/Print/Value.antt =====
-- src/print.rs: `print_value`, `print_array` and `print_object`.
pub mod Pieces
pub mod Containers
pub mod Result
use rust_json_port_mortem.Base.{
  ℕ, zero, suc, ◌+◌, ◌-◌, Bool, true, false, not, Option, none, some, List, [], ◌∷◌, ◌++◌, Outcome,
  ok, ◌>>=◌, ltb, leb, ◌==◌, if◌then◌else◌, match_option, length, replicate, bit_and,
}
use rust_json_port_mortem.Model.{
  Bytes, CJson, node, Children, nil, cons, cjson_false, cjson_true, cjson_null, cjson_number,
  cjson_string, cjson_array, cjson_object, cjson_raw, cjson_nesting_limit,
}
use rust_json_port_mortem.Alloc.{Grant}
use rust_json_port_mortem.Manip.Lookup.{string}
use rust_json_port_mortem.Parse.Number.{Libc}
use rust_json_port_mortem.Print.Buffer.{PrintBuffer, or_return, put, update_offset}
use rust_json_port_mortem.Print.Number.{Doubles, print_number}
use rust_json_port_mortem.Print.Text.{print_string_ptr}

abbrev pub null_text : Bytes
null_text = b'n' ∷ b'u' ∷ b'l' ∷ b'l' ∷ []

abbrev pub false_text : Bytes
false_text = b'f' ∷ b'a' ∷ b'l' ∷ b's' ∷ b'e' ∷ []

abbrev pub true_text : Bytes
true_text = b't' ∷ b'r' ∷ b'u' ∷ b'e' ∷ []

-- What stands in formatted output only.
abbrev pub if_format : Bool → Bytes → Bytes
if_format format cs = if format then cs else []

-- `if (*item).next.is_null() { none } else { some }`
abbrev pub if_last {ℓ} : {D : Type 0} {A : Type ℓ} → Children D → A → A → A
if_last nil last more = last
if_last (cons _ _) last more = more

abbrev pub moved : ℕ → PrintBuffer → PrintBuffer
moved n b = record b { offset = b.offset + n }

module _ (grant : Grant) (reallocate : Bool) (fresh : ℕ → ℕ → ℕ) where
  -- The comma of `print_array` between elements
  unfoldable pub separate : {D : Type 0} → Children D → PrintBuffer → Outcome (Bool × PrintBuffer)
  separate next b = if_last next (ok (true, b)) (
      let length = if b.format then 2 else 1 in
      or_return
        (put grant reallocate fresh (length + 1) (b',' ∷ (if_format b.format (b' ' ∷ []) ++ 0 ∷ []))
          b)
        λ b'. ok (true, moved length b'))

  -- The tabs of `print_object` before a key
  unfoldable pub indent : PrintBuffer → Outcome (Bool × PrintBuffer)
  indent b =
      if b.format
      then or_return (put grant reallocate fresh b.depth (replicate b.depth b'\t') b)
          (λ b'. ok (true, moved b'.depth b'))
      else ok (true, b)

  -- The colon behind a key
  unfoldable pub colon : PrintBuffer → Outcome (Bool × PrintBuffer)
  colon b =
      let length = if b.format then 2 else 1 in
      or_return (put grant reallocate fresh length (b':' ∷ if_format b.format (b'\t' ∷ [])) b)
        λ b'. ok (true, moved length b')

  -- The comma and the line's end behind a member
  unfoldable pub end_member : {D : Type 0} → Children D → PrintBuffer → Outcome (Bool × PrintBuffer)
  end_member next b =
      let length = (if b.format then 1 else 0) + if_last next 0 1 in
      or_return
        (put grant reallocate fresh (length + 1)
          (if_last next [] (b',' ∷ []) ++ (if_format b.format (b'\n' ∷ []) ++ 0 ∷ [])) b)
        λ b'. ok (true, moved length b')

  -- The start and the end of `print_array`, and of `print_object`
  unfoldable pub open_array : PrintBuffer → Outcome (Bool × PrintBuffer)
  open_array b =
      or_return (put grant reallocate fresh 1 (b'[' ∷ []) b)
        λ b'. ok (true, record b' { offset = b'.offset + 1; depth = b'.depth + 1 })

  unfoldable pub close_array : PrintBuffer → Outcome (Bool × PrintBuffer)
  close_array b =
      or_return (put grant reallocate fresh 2 (b']' ∷ 0 ∷ []) b)
        λ b'. ok (true, record b' { depth = b'.depth - 1 })

  unfoldable pub open_object : PrintBuffer → Outcome (Bool × PrintBuffer)
  open_object b =
      let length = if b.format then 2 else 1 in
      or_return (put grant reallocate fresh (length + 1) (b'{' ∷ if_format b.format (b'\n' ∷ [])) b)
        λ b'. ok (true, record b' { offset = b'.offset + length; depth = b'.depth + 1 })

  unfoldable pub close_object : PrintBuffer → Outcome (Bool × PrintBuffer)
  close_object b =
      or_return
        (put grant reallocate fresh (if b.format then b.depth + 1 else 2)
          (if_format b.format (replicate (b.depth - 1) b'\t') ++ b'}' ∷ 0 ∷ []) b)
        λ b'. ok (true, record b' { depth = b'.depth - 1 })

  -- `print_array`, with its loop over the children as a parameter
  unfoldable pub print_array :
      (PrintBuffer → Outcome (Bool × PrintBuffer)) → PrintBuffer → Outcome (Bool × PrintBuffer)
  print_array loop b =
      if leb cjson_nesting_limit b.depth
      then ok (false, b)
      else or_return (open_array b) (λ b1. or_return (loop b1) close_array)

  -- `print_object`, with its loop over the children as a parameter
  unfoldable pub print_object :
      (PrintBuffer → Outcome (Bool × PrintBuffer)) → PrintBuffer → Outcome (Bool × PrintBuffer)
  print_object loop b =
      if leb cjson_nesting_limit b.depth
      then ok (false, b)
      else or_return (open_object b) (λ b1. or_return (loop b1) close_object)

module _ {D : Type 0} (doubles : Doubles D) (libc : Libc D) where
  module _ (grant : Grant) (reallocate : Bool) (fresh : ℕ → ℕ → ℕ) where
    unfoldable mutual
      -- `print_value`
      pub print_value : CJson D → PrintBuffer → Outcome (Bool × PrintBuffer)
      print_value (node t v i d s c) b =
          let base_type = bit_and t 0xFF in
          let array = print_array grant reallocate fresh (print_elements c) b in
          let object = print_object grant reallocate fresh (print_members c) b in
          if base_type == cjson_null
          then put grant reallocate fresh 5 (null_text ++ 0 ∷ []) b
          else if base_type == cjson_false
          then put grant reallocate fresh 6 (false_text ++ 0 ∷ []) b
          else if base_type == cjson_true
          then put grant reallocate fresh 5 (true_text ++ 0 ∷ []) b
          else if base_type == cjson_number
          then print_number doubles libc grant reallocate fresh d i b
          else if base_type == cjson_raw
          then match_option v (ok (false, b))
              (λ raw. put grant reallocate fresh (length raw + 1) (raw ++ 0 ∷ []) b)
          else if base_type == cjson_string
          then print_string_ptr grant reallocate fresh v b
          else if base_type == cjson_array
          then array
          else if base_type == cjson_object
          then object
          else ok (false, b)

      -- The loop of `print_array`
      pub print_elements : Children D → PrintBuffer → Outcome (Bool × PrintBuffer)
      print_elements nil b = ok (true, b)
      print_elements (cons x next) b = or_return (print_value x b) λ b1. update_offset b1 >>= λ b2.
          or_return (separate grant reallocate fresh next b2) (print_elements next)

      -- The loop of `print_object`
      pub print_members : Children D → PrintBuffer → Outcome (Bool × PrintBuffer)
      print_members nil b = ok (true, b)
      print_members (cons x next) b = or_return (indent grant reallocate fresh b) λ b1.
          or_return (print_string_ptr grant reallocate fresh (string x) b1) λ b2.
            update_offset b2 >>= λ b3. or_return (colon grant reallocate fresh b3) λ b4.
              or_return (print_value x b4) λ b5. update_offset b5 >>= λ b6.
              or_return (end_member grant reallocate fresh next b6) (print_members next)
