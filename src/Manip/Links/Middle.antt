-- ===== src/Manip/Links/Middle.antt =====
-- src/manip.rs: an item between others in a chain.
use rust_json_port_mortem.Base.{
  ℕ, ◌≡◌, sym, true, List, [], ◌∷◌, ◌++◌, All, All-append, All-split, All-map, All-true, subst,
}
use rust_json_port_mortem.Manip.Links.{Store, null, is_item}
use rust_json_port_mortem.Manip.Links.Chain.{
  head_or, last_or, Nexts, Prevs, NotIn, AreDistinct, Items, Nexts-split, Prevs-split,
  last_or-append,
}

pub AreDistinct-append :
    (xs ys : List ℕ)
    → AreDistinct xs
    → AreDistinct ys
    → All (λ x. NotIn x ys) xs
    → AreDistinct (xs ++ ys)
AreDistinct-append [] ys u w apart = w
AreDistinct-append (x ∷ xs) ys u w apart =
    (All-append _ xs ys u.0 apart.0, AreDistinct-append xs ys u.1 w apart.1)

pub AreDistinct-split :
    (xs ys : List ℕ)
    → AreDistinct (xs ++ ys)
    → (AreDistinct xs × AreDistinct ys) × All (λ x. NotIn x ys) xs
AreDistinct-split [] ys u = ((tt, u), tt)
AreDistinct-split (x ∷ xs) ys u =
    let here = All-split _ xs ys u.0 in
    let rest = AreDistinct-split xs ys u.1 in (((here.0, rest.0.0), rest.0.1), (here.1, rest.1))

pub apart_insert :
    (v : ℕ) (xs ys : List ℕ)
    → NotIn v xs
    → All (λ x. NotIn x ys) xs
    → All (λ x. NotIn x (v ∷ ys)) xs
apart_insert v [] ys n a = tt
apart_insert v (x ∷ xs) ys n a = (((λ e. n.0 (sym e)), a.0), apart_insert v xs ys n.1 a.1)

pub apart_sym : (xs ys : List ℕ) → All (λ x. NotIn x ys) xs → All (λ y. NotIn y xs) ys
apart_sym [] ys a = All-true (λ _. tt) ys
apart_sym (x ∷ xs) ys a = apart_insert x ys xs a.0 (apart_sym xs ys a.1)

-- What is known of the items `xs`, then `item`, then `ys`, of an array or object.
pub record Around (h : Store) (p : ℕ) (xs : List ℕ) (item : ℕ) (ys : List ℕ) : Type 0 where
  pub owner : is_item h p ≡ true
  pub items_before : All (λ x. is_item h x ≡ true) xs
  pub item_here : is_item h item ≡ true
  pub items_behind : All (λ x. is_item h x ≡ true) ys
  pub distinct_before : AreDistinct xs
  pub distinct_behind : AreDistinct ys
  pub not_before : NotIn item xs
  pub not_behind : NotIn item ys
  pub apart : All (λ x. NotIn x ys) xs
  pub first : h.child p ≡ head_or null (xs ++ item ∷ ys)
  pub nexts_before : Nexts h.next xs item
  pub next_here : h.next item ≡ head_or null ys
  pub nexts_behind : Nexts h.next ys null
  pub prevs_before : Prevs h.prev (last_or item ys) xs
  pub prev_here : h.prev item ≡ last_or (last_or item ys) xs
  pub prevs_behind : Prevs h.prev item ys

pub Items-Around :
    (h : Store) (p : ℕ) (xs : List ℕ) (item : ℕ) (ys : List ℕ)
    → Items h p (xs ++ item ∷ ys)
    → Around h p xs item ys
Items-Around h p xs item ys i =
    let valid = All-split _ xs (item ∷ ys) i.items in
    let u = AreDistinct-split xs (item ∷ ys) i.distinct in
    let n = Nexts-split h.next xs (item ∷ ys) null i.nexts in
    let from_last : Prevs h.prev (last_or item ys) (xs ++ item ∷ ys) =
      subst (λ l. Prevs h.prev l (xs ++ item ∷ ys)) (last_or-append null item xs ys) i.prevs in
    let b = Prevs-split h.prev (last_or item ys) xs (item ∷ ys) from_last in
    record {
      owner = i.owner;
      items_before = valid.0;
      item_here = valid.1.0;
      items_behind = valid.1.1;
      distinct_before = u.0.0;
      distinct_behind = u.0.1.1;
      not_before = All-map (λ x a e. a.0 (sym e)) xs u.1;
      not_behind = u.0.1.0;
      apart = All-map (λ x a. a.1) xs u.1;
      first = i.first;
      nexts_before = n.0;
      next_here = n.1.0;
      nexts_behind = n.1.1;
      prevs_before = b.0;
      prev_here = b.1.0;
      prevs_behind = b.1.1;
    }
