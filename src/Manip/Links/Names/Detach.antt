-- ===== src/Manip/Links/Names/Detach.antt =====
-- src/manip.rs: the first member of a name is found, and taken out.
use rust_json_port_mortem.Base.{
  ℕ, zero, suc, ◌<◌, ◌≡◌, refl, Bool, true, false, some, List, [], ◌∷◌, ◌++◌, arith, All, ok,
  Returns, length,
}
use rust_json_port_mortem.Model.{Bytes}
use rust_json_port_mortem.Manip.Delete.{is_some}
use rust_json_port_mortem.Manip.Lookup.{passes}
use rust_json_port_mortem.Manip.Links.{Store, null, is_item}
use rust_json_port_mortem.Manip.Links.Chain.{head_or, Nexts, Items}
use rust_json_port_mortem.Manip.Links.Steps.{not_null, load-ok}
use rust_json_port_mortem.Manip.Links.Middle.{Items-Around}
use rust_json_port_mortem.Manip.Links.Detach.{Detached, cjson_detach_item_via_pointer-Items}
use rust_json_port_mortem.Manip.Links.Names.{name_loop, get_object_item, detach_item_from_object}

head_or-append : (item : ℕ) (xs ys : List ℕ) → head_or null (xs ++ item ∷ ys) ≡ head_or item xs
head_or-append item [] ys = refl
head_or-append item (x ∷ xs) ys = refl

module _ (case_sensitive : Bool) (name : Bytes) (h : Store) where
  -- The loop stops at the item that it does not pass.
  name_loop-first :
      (fuel : ℕ) (xs : List ℕ) (item : ℕ)
      → All (λ x. is_item h x ≡ true) xs
      → is_item h item ≡ true
      → Nexts h.next xs item
      → All (λ x. passes case_sensitive name (h.string x) ≡ true) xs
      → passes case_sensitive name (h.string item) ≡ false
      → length xs < fuel
      → name_loop case_sensitive name fuel (head_or item xs) h ≡ ok (item, h)
  unfolding name_loop
  name_loop-first zero xs item v w n p q e = absurd (omega arith)
  name_loop-first (suc fuel) [] item v w n p q e = simp (not_null h item w, load-ok, w, q) refl
  name_loop-first (suc fuel) (x ∷ xs) item v w n p q e =
      simp (not_null h x v.0, load-ok, v.0, p.0, n.0)
        (name_loop-first fuel xs item v.1 w n.1 p.1 q (omega (arith, e)))

  -- The first member that the search by name does not pass, and that has a name, is taken out of an
  -- object, without an access to what is no item: the others keep their order, and other links stay.
  pub detach_item_from_object-first :
      (fuel object item : ℕ) (xs ys : List ℕ)
      → Items h object (xs ++ item ∷ ys)
      → All (λ x. passes case_sensitive name (h.string x) ≡ true) xs
      → passes case_sensitive name (h.string item) ≡ false
      → is_some (h.string item) ≡ true
      → length xs < fuel
      → Returns
          (Detached h object xs item ys)
          (detach_item_from_object case_sensitive fuel object (some name) h)
  unfolding detach_item_from_object get_object_item
  detach_item_from_object-first fuel object item xs ys i p q s e =
      let a = Items-Around h object xs item ys i in
      let found = name_loop-first fuel xs item a.items_before a.item_here a.nexts_before p q e in
      simp
        (
          not_null h object a.owner,
          load-ok,
          a.owner,
          a.first,
          head_or-append item xs ys,
          found,
          not_null h item a.item_here,
          a.item_here,
          s,
        )
        (cjson_detach_item_via_pointer-Items h object item xs ys i)
