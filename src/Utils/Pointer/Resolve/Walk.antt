-- ===== src/Utils/Pointer/Resolve/Walk.antt =====
-- src/utils.rs: pointers are followed as RFC 6901 reads them.
use rust_json_port_mortem.Base.{
  ℕ, zero, suc, ◌+◌, ◌<◌, ◌^◌, ◌≡◌, ◌∙◌, refl, sym, ap, true, false, Option, some, [], ◌∷◌, ◌++◌,
  arith, ok, bit_and, length, length-append, Bool-cases, inl, inr,
}
use rust_json_port_mortem.Model.{Bytes, CJson, Children, nil, cons, cjson_array, cjson_object}
use rust_json_port_mortem.Manip.Lookup.{type_, string, child}
use rust_json_port_mortem.Manip.Lookup.Found.{NoNul, FirstNamed, here, there, HasNames}
use rust_json_port_mortem.Print.Number.{to_string}
use rust_json_port_mortem.Utils.Pointer.{in_element, compare_pointers, encode_string_as_pointer}
use rust_json_port_mortem.Utils.Pointer.Encode.{compare_pointers-encode}
use rust_json_port_mortem.Utils.Pointer.Index.{
  decode_array_index_from_pointer-to_string, skip_element, skip_element-to_string, skip_element-end,
}
use rust_json_port_mortem.Utils.Pointer.Resolve.{
  array_item_loop, member_loop, follow, get_item_from_pointer,
  cjson_utils_get_pointer_case_sensitive,
}

skip_element-encode :
    (b r : Bytes) → NoNul b → skip_element (encode_string_as_pointer b ++ r) ≡ skip_element r
unfolding skip_element encode_string_as_pointer in_element
skip_element-encode [] r n = refl
skip_element-encode (c ∷ b) r n = ground (arith, skip_element-encode b r n.1, n.0)

module _ {D : Type 0} where
  -- The item is the one of this number among the children, from 0.
  pub data IsItemAt (y : CJson D) : ℕ → Children D → Type 0 where
    front : {next : Children D} → IsItemAt y 0 (cons y next)
    further :
        {k : ℕ} {x : CJson D} {next : Children D}
        → IsItemAt y k next
        → IsItemAt y (suc k) (cons x next)

  array_item_loop-IsItemAt :
      {y : CJson D} {k : ℕ} {c : Children D} → IsItemAt y k c → array_item_loop c k ≡ some y
  unfolding array_item_loop
  array_item_loop-IsItemAt front = refl
  array_item_loop-IsItemAt (further w) = array_item_loop-IsItemAt w

  -- The texts that RFC 6901 writes for the way from an item to one below it.
  pub data Walk : CJson D → Bytes → CJson D → Type 0 where
    arrived : {x : CJson D} → Walk x [] x
    into_array :
        {x y z : CJson D} {p : Bytes} (k : ℕ)
        → bit_and (type_ x) 0xFF ≡ cjson_array
        → k < 2 ^ 64
        → IsItemAt y k (child x)
        → Walk y p z
        → Walk x (b'/' ∷ to_string k ++ p) z
    into_object :
        {x y z : CJson D} {p : Bytes} (name : Bytes)
        → bit_and (type_ x) 0xFF ≡ cjson_object
        → NoNul name
        → HasNames (child x)
        → FirstNamed name y (child x)
        → Walk y p z
        → Walk x (b'/' ∷ encode_string_as_pointer name ++ p) z

  pub Walk-in_element : {x y : CJson D} {p : Bytes} → Walk x p y → in_element p ≡ false
  unfolding in_element
  Walk-in_element arrived = refl
  Walk-in_element (into_array k _ _ _ _) = refl
  Walk-in_element (into_object name _ _ _ _ _) = refl

  member_loop-FirstNamed :
      (name r : Bytes) (y : CJson D) (c : Children D)
      → NoNul name
      → in_element r ≡ false
      → HasNames c
      → FirstNamed name y c
      → member_loop true (encode_string_as_pointer name ++ r) c ≡ some y
  unfolding member_loop
  member_loop-FirstNamed name r y nil n e h w = elim w [ ]
  member_loop-FirstNamed name r y (cons x next) n e h (here g) =
      rw
        (ap (λ o. compare_pointers o (some (encode_string_as_pointer name ++ r)) true) g
          ∙ (compare_pointers-encode name name r n e).1 refl)
        refl
  member_loop-FirstNamed name r y (cons x next) n e ((s, f, _), h) (there g w) =
      let test =
        λ (o : Option Bytes). compare_pointers o (some (encode_string_as_pointer name ++ r)) true in
      elim (Bool-cases (test (string x))) [
        | inl q ↦
            absurd
              (g (f ∙ ap some ((compare_pointers-encode s name r n e).0 (sym (ap test f) ∙ q))))
        | inr q ↦ rw q (member_loop-FirstNamed name r y next n e h w)
      ]

  follow-Walk :
      (fuel : ℕ) {x y : CJson D} {p : Bytes}
      → Walk x p y
      → length p < fuel
      → follow true fuel p (some x) ≡ ok (some y)
  unfolding follow
  follow-Walk zero w h = absurd (omega arith)
  follow-Walk (suc fuel) arrived h = refl
  follow-Walk (suc fuel) (into_array {p = p} k t small i w) h =
      let rest = Walk-in_element w in
      simp
        (
          t,
          decode_array_index_from_pointer-to_string k p small rest,
          skip_element-to_string k p rest,
          array_item_loop-IsItemAt i,
        )
        (follow-Walk fuel w (omega (arith, h, length-append (to_string k) p)))
  follow-Walk (suc fuel) (into_object {y = y} {p = p} name t n named f w) h =
      let rest = Walk-in_element w in
      let code = encode_string_as_pointer name in
      simp
        (
          t,
          member_loop-FirstNamed name p y _ n rest named f,
          skip_element-encode name p n ∙ skip_element-end p rest,
        )
        (follow-Walk fuel w (omega (arith, h, length-append code p)))

  -- The text that RFC 6901 writes for the way from an item to one below it leads
  -- `cJSONUtils_GetPointerCaseSensitive` from the one to the other.
  pub cjson_utils_get_pointer_case_sensitive-Walk :
      (x y : CJson D) (p : Bytes)
      → Walk x p y
      → cjson_utils_get_pointer_case_sensitive (some x) (some p) ≡ ok (some y)
  unfolding cjson_utils_get_pointer_case_sensitive get_item_from_pointer
  cjson_utils_get_pointer_case_sensitive-Walk x y p w = follow-Walk (length p + 1) w (omega arith)
