-- ===== src/Manip/Links/Index.antt =====
-- src/manip.rs: `get_array_item` follows the chain.
use rust_json_port_mortem.Base.{
  ℕ, zero, suc, ◌≡◌, refl, ap, true, List, [], ◌∷◌, ◌++◌, All, ok, get_or, ◌⊎◌, inl, inr,
}
use rust_json_port_mortem.Manip.Links.{Store, null, is_item}
use rust_json_port_mortem.Manip.Links.Chain.{head_or, Nexts, Items}
use rust_json_port_mortem.Manip.Links.Steps.{not_null, load-ok}
use rust_json_port_mortem.Manip.Links.Operations.{array_loop, get_array_item}

pub array_loop-get_or :
    (h : Store) (index : ℕ) (xs : List ℕ)
    → All (λ x. is_item h x ≡ true) xs
    → Nexts h.next xs null
    → array_loop index (head_or null xs) h ≡ ok (get_or xs index null, h)
unfolding array_loop
array_loop-get_or h zero [] v n = refl
array_loop-get_or h zero (x ∷ xs) v n = refl
array_loop-get_or h (suc index) [] v n = refl
array_loop-get_or h (suc index) (x ∷ xs) v n =
    simp (not_null h x v.0, load-ok, v.0, n.0) (array_loop-get_or h index xs v.1 n.1)

-- The address that `get_array_item` gives is the one at this index, and null behind the last.
pub get_array_item-get_or :
    (h : Store) (array index : ℕ) (xs : List ℕ)
    → Items h array xs
    → get_array_item array index h ≡ ok (get_or xs index null, h)
unfolding get_array_item
get_array_item-get_or h array index xs i =
    simp (not_null h array i.owner, load-ok, i.owner, i.first)
      (array_loop-get_or h index xs i.items i.nexts)

-- A list with `v` before the element of this index, or behind the last one.
unfoldable pub insert_at : ℕ → ℕ → List ℕ → List ℕ
insert_at index v [] = v ∷ []
insert_at zero v (x ∷ xs) = v ∷ x ∷ xs
insert_at (suc index) v (x ∷ xs) = x ∷ insert_at index v xs

-- A list without the element of this index.
unfoldable pub erase_at : ℕ → List ℕ → List ℕ
erase_at index [] = []
erase_at zero (x ∷ xs) = xs
erase_at (suc index) (x ∷ xs) = x ∷ erase_at index xs

-- A list with `v` in place of the element of this index.
unfoldable pub replace_at : ℕ → ℕ → List ℕ → List ℕ
replace_at index v [] = []
replace_at zero v (x ∷ xs) = v ∷ xs
replace_at (suc index) v (x ∷ xs) = x ∷ replace_at index v xs

-- An index is the place of an element, or behind the last one.
pub record At (index : ℕ) (v : ℕ) (xs : List ℕ) : Type 0 where
  pub before : List ℕ
  pub here : ℕ
  pub after : List ℕ
  pub all : xs ≡ before ++ here ∷ after
  pub found : get_or xs index null ≡ here
  pub inserted : insert_at index v xs ≡ before ++ v ∷ here ∷ after
  pub erased : erase_at index xs ≡ before ++ after
  pub replaced : replace_at index v xs ≡ before ++ v ∷ after

pub record Past (index : ℕ) (v : ℕ) (xs : List ℕ) : Type 0 where
  pub not_found : get_or xs index null ≡ null
  pub appended : insert_at index v xs ≡ xs ++ v ∷ []
  pub kept : erase_at index xs ≡ xs

pub At-cases : (index v : ℕ) (xs : List ℕ) → At index v xs ⊎ Past index v xs
unfolding insert_at erase_at replace_at
At-cases zero v [] = inr (record { not_found = refl; appended = refl; kept = refl })
At-cases (suc index) v [] = inr (record { not_found = refl; appended = refl; kept = refl })
At-cases zero v (x ∷ xs) = inl (record {
  before = [];
  here = x;
  after = xs;
  all = refl;
  found = refl;
  inserted = refl;
  erased = refl;
  replaced = refl;
})
At-cases (suc index) v (x ∷ xs) = elim (At-cases index v xs) [
  | inl a ↦ inl (record {
    before = x ∷ a.before;
    here = a.here;
    after = a.after;
    all = ap (λ l. x ∷ l) a.all;
    found = a.found;
    inserted = ap (λ l. x ∷ l) a.inserted;
    erased = ap (λ l. x ∷ l) a.erased;
    replaced = ap (λ l. x ∷ l) a.replaced;
  })
  | inr p ↦ inr (record {
    not_found = p.not_found;
    appended = ap (λ l. x ∷ l) p.appended;
    kept = ap (λ l. x ∷ l) p.kept;
  })
]
