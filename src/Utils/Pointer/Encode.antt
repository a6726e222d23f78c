-- ===== src/Utils/Pointer/Encode.antt =====
-- src/utils.rs: an encoded name is compared as the name itself.
use rust_json_port_mortem.Base.{
  ℕ, ◌≡◌, refl, ◌≢◌, ◌↔◌, true, false, some, none, [], ◌∷◌, ◌++◌, arith, length, All, ◌==◌,
  if◌then◌else◌,
}
use rust_json_port_mortem.Model.{Bytes}
use rust_json_port_mortem.Utils.Pointer.{
  in_element, pointer_step, compare_loop, compare_pointers, pointer_encoded_length,
  encode_string_as_pointer,
}

-- Writing the encoded text takes the bytes that were counted for it.
pub length-encode_string_as_pointer :
    (s : Bytes) → length (encode_string_as_pointer s) ≡ pointer_encoded_length s
unfolding encode_string_as_pointer pointer_encoded_length
length-encode_string_as_pointer [] = refl
length-encode_string_as_pointer (c ∷ s) = ground (arith, length-encode_string_as_pointer s)

module _ (s r : Bytes) where
  -- The element goes on where an encoded byte stands,
  pub in_element-encode :
      (d : ℕ) → d ≢ 0 → in_element (encode_string_as_pointer (d ∷ s) ++ r) ≡ true
  unfolding encode_string_as_pointer in_element
  in_element-encode d nonzero = ground arith

  -- and a round of the comparison accepts the byte itself and passes all that encodes it.
  pointer_step-encode :
      (c d : ℕ)
      → pointer_step true c (encode_string_as_pointer (d ∷ s) ++ r)
        ≡ (if c == d then some (encode_string_as_pointer s ++ r) else none)
  unfolding encode_string_as_pointer pointer_step
  pointer_step-encode c d = ground arith

-- Where an element ends, the loop accepts just the end of the name.
compare_loop-end : (a r : Bytes) → in_element r ≡ false → (compare_loop true a r ≡ true) ↔ (a ≡ [])
unfolding compare_loop
compare_loop-end [] r h = ground (arith, h)
compare_loop-end (c ∷ a) r h = ground (arith, h)

encode-end : (r : Bytes) → encode_string_as_pointer [] ++ r ≡ r
unfolding encode_string_as_pointer
encode-end r = refl

compare_loop-encode :
    (a b r : Bytes)
    → All (λ c. c ≢ 0) b
    → in_element r ≡ false
    → (compare_loop true a (encode_string_as_pointer b ++ r) ≡ true) ↔ (a ≡ b)
unfolding compare_loop
compare_loop-encode a [] r nonzero h = rw (encode-end r) (compare_loop-end a r h)
compare_loop-encode [] (d ∷ b) r nonzero h = rw (in_element-encode b r d nonzero.0) (ground arith)
compare_loop-encode (c ∷ a) (d ∷ b) r nonzero h =
    rw (in_element-encode b r d nonzero.0)
      (rw (pointer_step-encode b r c d) (ground (arith, compare_loop-encode a b r nonzero.1 h)))

-- A name and the encoding of another as the element of a pointer, with the rest of that pointer
-- behind it, are compared as the names are.
pub compare_pointers-encode :
    (a b r : Bytes)
    → All (λ c. c ≢ 0) b
    → in_element r ≡ false
    → (compare_pointers (some a) (some (encode_string_as_pointer b ++ r)) true ≡ true) ↔ (a ≡ b)
unfolding compare_pointers
compare_pointers-encode = compare_loop-encode
