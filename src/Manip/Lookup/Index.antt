-- ===== src/Manip/Lookup/Index.antt =====
-- src/manip.rs: the members of an array by their index.
use rust_json_port_mortem.Base.{
  ℕ, zero, suc, ◌<◌, ◌≡◌, ◌∙◌, ◌^◌, ◌%◌, sym, refl, ◌↔◌, true, some, arith, lt→ltb,
}
use rust_json_port_mortem.Model.{pos, CJson, Children, nil, cons}
use rust_json_port_mortem.Manip.Delete.{is_some}
use rust_json_port_mortem.Manip.Lookup.{
  child, index_loop, size_loop, get_array_item, cjson_get_array_item, cjson_get_array_size,
  as_c_int,
}

as_c_int-small : (n : ℕ) → n < 2 ^ 31 → as_c_int n ≡ pos n
unfolding as_c_int
as_c_int-small n h =
    let word : n % 2 ^ 32 ≡ n = omega arith in rw word (rw (lt→ltb n (2 ^ 31) h) refl)

pos-injective : (n k : ℕ) → pos n ≡ pos k → n ≡ k
pos-injective n k e = cc e

module _ {D : Type 0} where
  index_loop-size : (c : Children D) (k : ℕ) → (is_some (index_loop c k) ≡ true) ↔ (k < size_loop c)
  unfolding index_loop size_loop
  index_loop-size nil k = ground arith
  index_loop-size (cons x c) zero = ground arith
  index_loop-size (cons x c) (suc k) = ground (arith, index_loop-size c k)

  -- An array whose count of members fits a `c_int` has an item at an index if and only if the index is
  -- below the size that `cjson_get_array_size` gives.
  pub cjson_get_array_item-size :
      (array : CJson D) (n k : ℕ)
      → size_loop (child array) < 2 ^ 31
      → cjson_get_array_size (some array) ≡ pos n
      → (is_some (cjson_get_array_item (some array) (pos k)) ≡ true) ↔ (k < n)
  unfolding cjson_get_array_item get_array_item cjson_get_array_size
  cjson_get_array_item-size array n k small e =
      let size : size_loop (child array) ≡ n =
        pos-injective _ n (sym (as_c_int-small _ small) ∙ e) in
      ground (arith, size, index_loop-size (child array) k)
