-- ===== src/Utils/Pointer.antt =====
-- src/utils.rs: the path elements of JSON pointers. A text is its bytes without the nul, so that
-- `*p` is 0 at its end.
pub mod Encode
pub mod Index
pub mod Resolve
use rust_json_port_mortem.Base.{
  ℕ, zero, suc, ◌+◌, ◌-◌, ◌*◌, Bool, true, false, not, ◌&&◌, ◌||◌, Option, none, some, List, [],
  ◌∷◌, ◌==◌, in_range, if◌then◌else◌, match_option,
}
use rust_json_port_mortem.Model.{Bytes, first, behind}
use rust_json_port_mortem.Manip.Lookup.{to_ascii_lowercase}

-- `*pointer != 0 && *pointer != b'/'`
unfoldable pub in_element : Bytes → Bool
in_element p = not (first p == 0) && not (first p == b'/')

-- One round of `compare_pointers`: the pointer behind it, `none` for `return 0`.
unfoldable pub pointer_step : Bool → ℕ → Bytes → Option Bytes
pointer_step case_sensitive name p =
    if first p == b'~'
    then if (not (first (behind p) == b'0') || not (name == b'~'))
        && (not (first (behind p) == b'1') || not (name == b'/'))
      then none
      else some (behind (behind p))
    else if (not case_sensitive && not (to_ascii_lowercase name == to_ascii_lowercase (first p)))
        || (case_sensitive && not (name == first p))
    then none
    else some (behind p)

-- The loop of `compare_pointers` and the test behind it.
unfoldable pub compare_loop : Bool → Bytes → Bytes → Bool
compare_loop case_sensitive [] pointer = not (in_element pointer)
compare_loop case_sensitive (c ∷ name) pointer =
    let next = compare_loop case_sensitive name in
    if in_element pointer
    then match_option (pointer_step case_sensitive c pointer) false next
    else false

-- `compare_pointers`
unfoldable pub compare_pointers : Option Bytes → Option Bytes → Bool → Bool
compare_pointers none pointer case_sensitive = false
compare_pointers (some name) none case_sensitive = false
compare_pointers (some name) (some pointer) case_sensitive =
    compare_loop case_sensitive name pointer

-- `pointer_encoded_length`
unfoldable pub pointer_encoded_length : Bytes → ℕ
pointer_encoded_length [] = 0
pointer_encoded_length (c ∷ string) =
    (if c == b'~' || c == b'/' then 1 else 0) + 1 + pointer_encoded_length string

-- `encode_string_as_pointer`: the bytes that it writes before the nul
unfoldable pub encode_string_as_pointer : Bytes → Bytes
encode_string_as_pointer [] = []
encode_string_as_pointer (c ∷ source) =
    let tail = encode_string_as_pointer source in
    if c == b'/' then b'~' ∷ b'1' ∷ tail else if c == b'~' then b'~' ∷ b'0' ∷ tail else c ∷ tail
