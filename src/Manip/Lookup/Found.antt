-- ===== src/Manip/Lookup/Found.antt =====
-- src/manip.rs: what the search of an object finds.
use rust_json_port_mortem.Base.{
  ℕ, ◌≡◌, ◌∙◌, refl, sym, match_option, ◌≢◌, ◌↔◌, true, false, Option, none, some, [], ◌∷◌, arith,
  All, ap, Bool-cases, inl, inr,
}
use rust_json_port_mortem.Model.{Bytes, CJson, Children, nil, cons}
use rust_json_port_mortem.Manip.Lookup.{
  cstr_cmp, difference, is_zero, string, child, passes, search_loop, get_object_item,
}

-- No byte of a text is the nul.
abbrev pub NoNul : Bytes → Type 0
NoNul = All (λ c. c ≢ 0)

is_zero-difference : (x y : ℕ) → (is_zero (difference x y) ≡ true) ↔ (x ≡ y)
unfolding difference
is_zero-difference x y = ground arith

-- `cstr_cmp` is zero on equal texts only.
pub cstr_cmp-equal : (a b : Bytes) → NoNul a → NoNul b → (is_zero (cstr_cmp a b) ≡ true) ↔ (a ≡ b)
unfolding cstr_cmp
cstr_cmp-equal [] [] p q = ground arith
cstr_cmp-equal [] (y ∷ b) p q = ground (arith, is_zero-difference 0 y, q.0)
cstr_cmp-equal (x ∷ a) [] p q = ground (arith, is_zero-difference x 0, p.0)
cstr_cmp-equal (x ∷ a) (y ∷ b) p q =
    ground (arith, is_zero-difference x y, cstr_cmp-equal a b p.1 q.1)

passes-sensitive :
    (name : Bytes) (s : Bytes)
    → NoNul name
    → NoNul s
    → (passes true name (some s) ≡ false) ↔ (s ≡ name)
unfolding passes
passes-sensitive name s p q = ground (arith, cstr_cmp-equal s name q p)

passes-other :
    (name : Bytes) (o : Option Bytes) → NoNul name → passes true name o ≡ true → o ≢ some name
passes-other name o p h f = cc (h, ap (passes true name) f, (passes-sensitive name name p p).1 refl)

module _ {D : Type 0} where
  -- `found` is the first item of the list with this name.
  pub data FirstNamed (name : Bytes) (found : CJson D) : Children D → Type 0 where
    here : {next : Children D} → string found ≡ some name → FirstNamed name found (cons found next)
    there :
        {x : CJson D} {next : Children D}
        → string x ≢ some name
        → FirstNamed name found next
        → FirstNamed name found (cons x next)

  -- No item of the list has this name.
  abbrev pub Unnamed : Bytes → Children D → Type 0
  Unnamed name nil = Unit
  Unnamed name (cons x next) = (string x ≢ some name) × Unnamed name next

  -- Each item of the list has a name.
  abbrev pub HasNames : Children D → Type 0
  HasNames nil = Unit
  HasNames (cons x next) = ((s : Bytes) × (string x ≡ some s) × NoNul s) × HasNames next

  -- The result of a search for a name.
  pub data Search (name : Bytes) (c : Children D) : Option (CJson D) → Type 0 where
    found :
        {x : CJson D} {s : Bytes} → FirstNamed name x c → string x ≡ some s → Search name c (some x)
    absent : Unnamed name c → Search name c none

  Search-there :
      (name : Bytes) (x : CJson D) (c : Children D) (r : Option (CJson D))
      → string x ≢ some name
      → Search name c r
      → Search name (cons x c) r
  Search-there name x c _ other (found f e) = found (there other f) e
  Search-there name x c _ other (absent a) = absent (other, a)

  -- What was found has a name, so that the last test of the search changes nothing.
  stable :
      (name : Bytes) (c : Children D) (r : Option (CJson D))
      → Search name c r
      → Search name c (match_option r none (λ x. match_option (string x) none (λ s. some x)))
  stable name c _ (found f e) = rw e (found f e)
  stable name c _ (absent a) = absent a

  search_loop-Search :
      (name : Bytes) (c : Children D)
      → NoNul name
      → HasNames c
      → Search name c (search_loop true name c)
  unfolding search_loop
  search_loop-Search name nil p q = absent tt
  search_loop-Search name (cons x next) p ((s, e, n), q) =
      let same = passes-sensitive name s p n in
      let named = ap (λ o. passes true name o) e in
      elim (Bool-cases (passes true name (string x))) [
        | inl h ↦ rw h (
            Search-there name x next _ (λ f. passes-other name (string x) p h f)
              (search_loop-Search name next p q))
        | inr h ↦ rw h (found (here (e ∙ ap some (same.0 (sym named ∙ h)))) e)
      ]

  -- In an object whose members all have names, `get_object_item` with case sensitivity finds the
  -- first member of the name, and nothing if no member has it.
  pub get_object_item-Search :
      (object : CJson D) (name : Bytes)
      → NoNul name
      → HasNames (child object)
      → Search name (child object) (get_object_item (some object) (some name) true)
  unfolding get_object_item
  get_object_item-Search object name p q =
      stable name (child object) _ (search_loop-Search name (child object) p q)
