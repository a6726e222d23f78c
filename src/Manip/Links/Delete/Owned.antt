-- ===== src/Manip/Links/Delete/Owned.antt =====
-- src/manip.rs: the deletion of one item with what it owns.
use rust_json_port_mortem.Base.{
  ℕ, ◌+◌, ◌<◌, ◌≡◌, ◌∙◌, sym, ap, subst, Bool, true, false, List, [], ◌∷◌, append-nil, arith, All,
  All-split, All-map2, Returns, Returns-mono, length,
}
use rust_json_port_mortem.Manip.Delete.{is_reference}
use rust_json_port_mortem.Manip.Links.{Store, null, is_item}
use rust_json_port_mortem.Manip.Links.Chain.{
  last_or, Nexts, Prevs, NotIn, AreDistinct, Items, Within,
}
use rust_json_port_mortem.Manip.Links.Delete.{cjson_delete}
use rust_json_port_mortem.Manip.Links.Delete.Forest.{
  Forest, empty, reference, owner, Holds, Freed, cjson_delete-Freed,
}

-- What an item owns: nothing if it is a reference, else what its child leads to.
pub data Owned (h : Store) (item : ℕ) (below : List ℕ) : Type 0 where
  nothing : is_reference (h.type_ item) ≡ true → below ≡ [] → Owned h item below
  children : is_reference (h.type_ item) ≡ false → Holds h (h.child item) below → Owned h item below

-- The same fields of an item in both states
abbrev Same : (live live' : ℕ → Bool) (next next' child child' type_ type_' : ℕ → ℕ) → ℕ → Type 0
Same live live' next next' child child' type_ type_' a =
    (live' a ≡ live a) × (next' a ≡ next a) × (child' a ≡ child a) × (type_' a ≡ type_ a)

from_equal :
    {live : ℕ → Bool} {next child type_ : ℕ → ℕ} {p q : ℕ} {l : List ℕ}
    → p ≡ q
    → Forest live next child type_ p l
    → Forest live next child type_ q l
from_equal {live} {next} {child} {type_} {l = l} e f =
    subst (λ q. Forest live next child type_ q l) e f

Forest-Same :
    {live live' : ℕ → Bool} {next next' child child' type_ type_' : ℕ → ℕ} {p : ℕ} {l : List ℕ}
    → Forest live next child type_ p l
    → All (Same live live' next next' child child' type_ type_') l
    → Forest live' next' child' type_' p l
Forest-Same empty e = empty
Forest-Same (reference {p} v r f) e =
    reference (ground (arith, v, e.0.0)) (ap is_reference e.0.3 ∙ r)
      (from_equal (sym e.0.1) (Forest-Same f e.1))
Forest-Same (owner {p} {below} {after} v r f g) e =
    let q = All-split _ below after e.1 in
    owner (ground (arith, v, e.0.0)) (ap is_reference e.0.3 ∙ r)
      (from_equal (sym e.0.2) (Forest-Same f q.0)) (from_equal (sym e.0.1) (Forest-Same g q.1))

Freed-Items :
    (h h' : Store) (p : ℕ) (gone xs : List ℕ)
    → Freed gone h h'
    → NotIn p gone
    → All (λ x. NotIn x gone) xs
    → Items h p xs
    → Items h' p xs
Freed-Items h h' p gone xs f n a i = record {
  owner = ground (arith, i.owner, (f.kept p n).live);
  items = All-map2 (λ x o v. ground (arith, v, (f.kept x o).live)) xs a i.items;
  distinct = i.distinct;
  first = ap (λ c. c p) f.child ∙ i.first;
  nexts = subst (λ g. Nexts g xs null) (sym f.next) i.nexts;
  prevs = subst (λ g. Prevs g (last_or null xs) xs) (sym f.prev) i.prevs;
}

-- When an item was taken out or replaced, the deletion takes it and what it owns.
module _ (h h1 : Store) (array item : ℕ) (below at : List ℕ) where
  alone :
      Within h h1 array at
      → h1.next item ≡ null
      → is_item h item ≡ true
      → Owned h item below
      → NotIn array (item ∷ below)
      → All (λ b. NotIn b at) below
      → Holds h1 item (item ∷ below)
  alone w end v (nothing r e) n o =
      subst (λ l. Holds h1 item (item ∷ l)) (sym e)
        (reference (ground (arith, v, ap (λ l. l item) w.live))
          (ap (λ t. is_reference (t item)) w.type_ ∙ r) (from_equal (sym end) empty))
  alone w end v (children r f) n o =
      subst (λ l. Holds h1 item (item ∷ l)) (append-nil below)
        (owner (ground (arith, v, ap (λ l. l item) w.live))
          (ap (λ t. is_reference (t item)) w.type_ ∙ r)
          (from_equal (sym (w.child item n.0)) (
            Forest-Same f (
              All-map2
                (λ b m q. (ap (λ l. l b) w.live, w.next b q, w.child b m, ap (λ t. t b) w.type_))
                below n.1 o)))
          (from_equal (sym end) empty))

  pub cjson_delete-rest :
      (fuel : ℕ) (zs : List ℕ)
      → Within h h1 array at
      → h1.next item ≡ null
      → is_item h item ≡ true
      → Owned h item below
      → NotIn array (item ∷ below)
      → All (λ b. NotIn b at) below
      → AreDistinct (item ∷ below)
      → All (λ z. NotIn z (item ∷ below)) zs
      → length below + 1 < fuel
      → Items h1 array zs
      → Returns (λ r. Items r.1 array zs × Freed (item ∷ below) h1 r.1) (cjson_delete fuel item h1)
  cjson_delete-rest fuel zs w end v own n o u a enough i =
      Returns-mono (cjson_delete-Freed fuel h1 (alone w end v own n o) u (omega (arith, enough)))
        (λ r f. (Freed-Items h1 r.1 array (item ∷ below) zs f n a i, f))
