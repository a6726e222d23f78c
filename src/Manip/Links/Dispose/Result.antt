-- ===== src/Manip/Links/Dispose/Result.antt =====
-- src/manip.rs: what is left when an item of an array is deleted or replaced.
use rust_json_port_mortem.Base.{
  ℕ, ◌+◌, ◌<◌, ◌≡◌, refl, sym, ap, subst, true, false, List, [], ◌∷◌, ◌++◌, All, All-map,
  All-append, Returns, returns, Returns-mono, length, get_or, ◌==◌,
}
use rust_json_port_mortem.Model.{pos}
use rust_json_port_mortem.Manip.Links.{Store, null, is_item, pure, ◌>>◌}
use rust_json_port_mortem.Manip.Links.Chain.{head_or, NotIn, AreDistinct, Items, Within}
use rust_json_port_mortem.Manip.Links.Middle.{Around, Items-Around, apart_insert}
use rust_json_port_mortem.Manip.Links.Steps.{not_null, unequal, load-ok}
use rust_json_port_mortem.Manip.Links.Operations.{cjson_detach_item_from_array}
use rust_json_port_mortem.Manip.Links.Index.{get_array_item-get_or}
use rust_json_port_mortem.Manip.Links.Detach.{cjson_detach_item_via_pointer-Items}
use rust_json_port_mortem.Manip.Links.Replace.{replace_links, replace_links-Replaced}
use rust_json_port_mortem.Manip.Links.Delete.{cjson_delete}
use rust_json_port_mortem.Manip.Links.Delete.Forest.{Freed, then-Returns}
use rust_json_port_mortem.Manip.Links.Delete.Texts.{Kept, Gone, Kept-trans, Kept-Gone}
use rust_json_port_mortem.Manip.Links.Delete.Owned.{Owned, cjson_delete-rest}
use rust_json_port_mortem.Manip.Links.Dispose.{
  cjson_delete_item_from_array, cjson_replace_item_via_pointer,
}

-- An item in a chain that is not linked with what it owns.
pub record IsApart (array : ℕ) (xs : List ℕ) (item : ℕ) (below ys : List ℕ) : Type 0 where
  pub distinct : AreDistinct (item ∷ below)
  pub outside : All (λ b. NotIn b (xs ++ item ∷ ys)) below
  pub before : All (λ x. NotIn x (item ∷ below)) xs
  pub behind : All (λ y. NotIn y (item ∷ below)) ys
  pub array_is_other : NotIn array (item ∷ below)

-- The array holds these items, and just the others were given back, each with the texts that it owns.
pub record Disposed (h : Store) (array : ℕ) (xs gone : List ℕ) (h' : Store) : Type 0 where
  pub items : Items h' array xs
  pub freed : All (Gone h h') gone
  pub kept : (a : ℕ) → NotIn a gone → Kept h h' a

-- The links alone do not matter for what is given back.
Within-Kept : {h h' : Store} {p : ℕ} {at : List ℕ} → Within h h' p at → (a : ℕ) → Kept h h' a
Within-Kept w a = record {
  live = ap (λ f. f a) w.live;
  values = ap (λ f. f a) w.values_freed;
  names = ap (λ f. f a) w.names_freed;
  valuestring = ap (λ f. f a) w.valuestring;
  string = ap (λ f. f a) w.string;
}

disposed :
    (h h1 h2 : Store) (array : ℕ) (xs gone : List ℕ) {at : List ℕ}
    → Within h h1 array at
    → Items h2 array xs × Freed gone h1 h2
    → Disposed h array xs gone h2
disposed h h1 h2 array xs gone w f = record {
  items = f.0;
  freed = All-map (λ b g. Kept-Gone w.type_ (Within-Kept w b) g) gone f.1.freed;
  kept = λ b o. Kept-trans (Within-Kept w b) (f.1.kept b o);
}

get_or-length :
    (xs : List ℕ) (item : ℕ) (ys : List ℕ) → get_or (xs ++ item ∷ ys) (length xs) null ≡ item
get_or-length [] item ys = refl
get_or-length (x ∷ xs) item ys = get_or-length xs item ys

-- The item behind `xs` in an array is deleted, with the items and the texts that it owns, each once, and no
-- other item or text, without an access to what is no item; the array keeps the other items in their
-- order.
pub cjson_delete_item_from_array-Items :
    (fuel : ℕ) (h : Store) (array item : ℕ) (xs below ys : List ℕ)
    → Items h array (xs ++ item ∷ ys)
    → Owned h item below
    → IsApart array xs item below ys
    → length below + 1 < fuel
    → Returns
        (λ r. Disposed h array (xs ++ ys) (item ∷ below) r.1)
        (cjson_delete_item_from_array fuel array (pos (length xs)) h)
unfolding cjson_delete_item_from_array cjson_detach_item_from_array
cjson_delete_item_from_array-Items fuel h array item xs below ys i own a enough =
    let at = xs ++ item ∷ ys in
    let here = Items-Around h array xs item ys i in
    simp (get_array_item-get_or h array (length xs) at i, get_or-length xs item ys)
      (then-Returns (cjson_detach_item_via_pointer-Items h array item xs ys i) (cjson_delete fuel)
        λ r d.
          subst
            (λ p.
              Returns (λ r. Disposed h array (xs ++ ys) (item ∷ below) r.1)
                (cjson_delete fuel p r.1))
            (sym d.result)
            (Returns-mono
              (cjson_delete-rest h r.1 array item below at fuel (xs ++ ys) d.within d.no_next
                here.item_here own a.array_is_other a.outside a.distinct
                (All-append _ xs ys a.before a.behind) enough d.items)
              (λ r' f. disposed h r.1 r'.1 array (xs ++ ys) (item ∷ below) d.within f)))

first_not_null :
    (h : Store) (p item : ℕ) (xs ys : List ℕ)
    → Around h p xs item ys
    → (head_or null (xs ++ item ∷ ys) == null) ≡ false
first_not_null h p item [] ys a = not_null h item a.item_here
first_not_null h p item (x ∷ xs) ys a = not_null h x a.items_before.0

module _ (fuel : ℕ) (h : Store) (array item replacement : ℕ) (xs below ys : List ℕ) where
  replaced-Disposed :
      Items h array (xs ++ item ∷ ys)
      → Owned h item below
      → IsApart array xs item below ys
      → is_item h replacement ≡ true
      → NotIn replacement (item ∷ below)
      → NotIn replacement (xs ++ item ∷ ys)
      → length below + 1 < fuel
      → Returns
          (λ r. (r.0 ≡ true) × Disposed h array (xs ++ replacement ∷ ys) (item ∷ below) r.1)
          ((replace_links array item replacement >> cjson_delete fuel item >> pure true) h)
  replaced-Disposed i own a v m n enough =
      let at = xs ++ item ∷ ys in
      let zs = xs ++ replacement ∷ ys in
      let here = Items-Around h array xs item ys i in
      then-Returns (replace_links-Replaced h array item replacement xs ys i v n) _ λ r d.
        then-Returns
          (cjson_delete-rest h r.1 array item below (replacement ∷ at) fuel zs d.within d.no_next
            here.item_here own a.array_is_other (apart_insert replacement below at m.1 a.outside)
            a.distinct (All-append _ xs (replacement ∷ ys) a.before (m, a.behind)) enough d.items)
          _ λ r' f. returns (refl, disposed h r.1 r'.1 array zs (item ∷ below) d.within f)

  -- The item is deleted with the items and the texts that it owns, each once, and no other item or text,
  -- and the array holds the replacement in its place, without an access to what is no item, where the
  -- replacement is an item that is not one of these.
  pub cjson_replace_item_via_pointer-Items :
      Items h array (xs ++ item ∷ ys)
      → Owned h item below
      → IsApart array xs item below ys
      → is_item h replacement ≡ true
      → NotIn replacement (item ∷ below)
      → NotIn replacement (xs ++ item ∷ ys)
      → length below + 1 < fuel
      → Returns
          (λ r. (r.0 ≡ true) × Disposed h array (xs ++ replacement ∷ ys) (item ∷ below) r.1)
          (cjson_replace_item_via_pointer fuel array item replacement h)
  unfolding cjson_replace_item_via_pointer
  cjson_replace_item_via_pointer-Items i own a v m n enough =
      let here = Items-Around h array xs item ys i in
      let holds_some = first_not_null h array item xs ys here in
      simp
        (
          not_null h array here.owner,
          load-ok,
          here.owner,
          here.first,
          holds_some,
          not_null h replacement v,
          not_null h item here.item_here,
          unequal replacement item (λ e. m.0 (sym e)),
        )
        (replaced-Disposed i own a v m n enough)
