-- ===== src/Manip/Delete.antt =====
-- src/manip.rs: `cjson_delete`.
use rust_json_port_mortem.Base.{
  ℕ, ◌+◌, ◌≡◌, refl, Bool, true, false, not, ◌&&◌, Option, none, some, arith, bit_and, ◌==◌,
  if◌then◌else◌,
}
use rust_json_port_mortem.Model.{
  CJson, node, Children, nil, cons, snoc, cjson_is_reference, cjson_string_is_const,
}
use rust_json_port_mortem.Alloc.{Memory, cjson_dealloc}

-- `is_reference` and `is_string_is_const` of src/model.rs, on the field `type_`
abbrev pub is_reference : ℕ → Bool
is_reference t = not (bit_and t cjson_is_reference == 0)

abbrev pub is_string_is_const : ℕ → Bool
is_string_is_const t = not (bit_and t cjson_string_is_const == 0)

abbrev pub is_some {ℓ} : {A : Type ℓ} → Option A → Bool
is_some none = false
is_some (some _) = true

-- The loop over the items that `next` links, and one round of it.
unfoldable mutual
  pub cjson_delete : {D : Type 0} → Children D → Memory → Memory
  cjson_delete nil m = m
  cjson_delete (cons cur next) m = cjson_delete next (delete_item cur m)

  pub delete_item : {D : Type 0} → CJson D → Memory → Memory
  delete_item (node t v i d s c) m =
      let after_child = if not (is_reference t) then cjson_delete c m else m in
      let after_value =
        if not (is_reference t) && is_some v then cjson_dealloc after_child else after_child in
      let after_key =
        if not (is_string_is_const t) && is_some s
        then cjson_dealloc after_value
        else after_value in
      cjson_dealloc after_key

-- The blocks that an item owns: its node, its texts but the foreign ones, and its children unless
-- they belong to another item.
abbrev pub one_if : Bool → ℕ
one_if true = 1
one_if false = 0

unfoldable mutual
  pub owned_all : {D : Type 0} → Children D → ℕ
  owned_all nil = 0
  owned_all (cons x xs) = owned x + owned_all xs

  pub owned : {D : Type 0} → CJson D → ℕ
  owned (node t v i d s c) =
      1
      + (if not (is_reference t) then owned_all c else 0)
      + (one_if (not (is_reference t) && is_some v)
          + one_if (not (is_string_is_const t) && is_some s))

-- The effect on the memory of giving back `n` blocks.
pub record Frees (n : ℕ) (m m' : Memory) : Type 0 where
  pub frees : m'.frees ≡ m.frees + n
  pub allocs : m'.allocs ≡ m.allocs
  pub requests : m'.requests ≡ m.requests

Frees-trans : {a b n : ℕ} {l m k : Memory} → Frees a l m → Frees b m k → n ≡ a + b → Frees n l k
Frees-trans f g e = record {
  frees = omega (arith, f.frees, g.frees);
  allocs = omega (arith, f.allocs, g.allocs);
  requests = omega (arith, f.requests, g.requests);
}

-- An item is deleted by giving back its node, after what it owns.
Frees-item :
    (r v s : Bool) (n : ℕ) (c m : Memory)
    → (r ≡ false → Frees n m c)
    → Frees (1 + (if not r then n else 0) + (one_if (not r && v) + one_if s)) m (
        let after_child = if not r then c else m in
        let after_value = if not r && v then cjson_dealloc after_child else after_child in
        let after_key = if s then cjson_dealloc after_value else after_value in
        cjson_dealloc after_key)
unfolding cjson_dealloc
Frees-item true true true n c m h = omega arith
Frees-item true true false n c m h = omega arith
Frees-item true false true n c m h = omega arith
Frees-item true false false n c m h = omega arith
Frees-item false true true n c m h = let f = h refl in omega (arith, f.frees, f.allocs, f.requests)
Frees-item false true false n c m h = let f = h refl in omega (arith, f.frees, f.allocs, f.requests)
Frees-item false false true n c m h = let f = h refl in omega (arith, f.frees, f.allocs, f.requests)
Frees-item false false false n c m h =
    let f = h refl in omega (arith, f.frees, f.allocs, f.requests)

mutual
  unfolding cjson_delete owned

  delete_all-Frees :
      {D : Type 0} (c : Children D) (m : Memory) → Frees (owned_all c) m (cjson_delete c m)
  delete_all-Frees nil m = omega arith
  delete_all-Frees (cons x xs) m =
      Frees-trans (delete_item-Frees x m) (delete_all-Frees xs (delete_item x m)) refl

  delete_item-Frees : {D : Type 0} (x : CJson D) (m : Memory) → Frees (owned x) m (delete_item x m)
  delete_item-Frees (node t v i d s c) m =
      Frees-item (is_reference t) (is_some v) (not (is_string_is_const t) && is_some s)
        (owned_all c) (cjson_delete c m) m (λ _. delete_all-Frees c m)

-- `cjson_delete` calls the deallocator as many times as the list owns blocks, and asks for none.
pub cjson_delete-Frees :
    {D : Type 0} (c : Children D) (m : Memory) → Frees (owned_all c) m (cjson_delete c m)
cjson_delete-Frees = delete_all-Frees

pub owned_all-snoc :
    {D : Type 0} (c : Children D) (x : CJson D) → owned_all (snoc c x) ≡ owned_all c + owned x
unfolding owned
owned_all-snoc nil x = omega arith
owned_all-snoc (cons y c) x = omega (arith, owned_all-snoc c x)
