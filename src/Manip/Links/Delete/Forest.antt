-- ===== src/Manip/Links/Delete/Forest.antt =====
-- src/manip.rs: `cjson_delete` gives back each item of a tree once.
use rust_json_port_mortem.Base.{
  ℕ, zero, suc, ◌<◌, ◌≡◌, ◌≢◌, ◌∙◌, refl, sym, ap, subst, Bool, true, false, not, List, [], ◌∷◌,
  ◌++◌, arith, All, All-append, All-split, All-map2, Returns, returns, Returns-mono, Outcome,
  length, length-append, ◌==◌, if◌then◌else◌,
}
use rust_json_port_mortem.Manip.Delete.{is_reference}
use rust_json_port_mortem.Alloc.{cjson_dealloc}
use rust_json_port_mortem.Manip.Links.{
  pure, ◌>>◌, Store, null, is_item, valid, update, Action, and_then, free_item,
}
use rust_json_port_mortem.Manip.Links.Chain.{NotIn, AreDistinct}
use rust_json_port_mortem.Manip.Links.Middle.{AreDistinct-split, apart_sym}
use rust_json_port_mortem.Manip.Links.Steps.{not_null, load-ok, free_item-ok}
use rust_json_port_mortem.Manip.Links.Delete.{free_texts, cjson_delete}
use rust_json_port_mortem.Manip.Links.Delete.Texts.{
  Kept, Gone, Kept-refl, Kept-trans, Gone-Kept, Kept-Gone, SameItems-item, Texts, free_texts-Texts,
}

-- The items that the chain from an address holds, with what they own, in the order of a walk.
pub data Forest (live : ℕ → Bool) (next child type_ : ℕ → ℕ) : ℕ → List ℕ → Type 0 where
  empty : Forest live next child type_ null []
  reference :
      {p : ℕ} {after : List ℕ}
      → valid live p ≡ true
      → is_reference (type_ p) ≡ true
      → Forest live next child type_ (next p) after
      → Forest live next child type_ p (p ∷ after)
  owner :
      {p : ℕ} {below after : List ℕ}
      → valid live p ≡ true
      → is_reference (type_ p) ≡ false
      → Forest live next child type_ (child p) below
      → Forest live next child type_ (next p) after
      → Forest live next child type_ p (p ∷ below ++ after)

abbrev pub Holds : Store → ℕ → List ℕ → Type 0
Holds h = Forest h.live h.next h.child h.type_

-- From the one state to the other just the items `gone` were given back, with the texts that they own.
pub record Freed (gone : List ℕ) (h h' : Store) : Type 0 where
  pub kept : (a : ℕ) → NotIn a gone → Kept h h' a
  pub freed : All (Gone h h') gone
  pub next : h'.next ≡ h.next
  pub prev : h'.prev ≡ h.prev
  pub child : h'.child ≡ h.child
  pub type_ : h'.type_ ≡ h.type_

Forest-live :
    {live live' : ℕ → Bool} {next child type_ : ℕ → ℕ} {p : ℕ} {l : List ℕ}
    → Forest live next child type_ p l
    → All (λ a. live' a ≡ live a) l
    → Forest live' next child type_ p l
Forest-live empty e = empty
Forest-live (reference {p} v r f) e = reference (ground (arith, v, e.0)) r (Forest-live f e.1)
Forest-live (owner {p} {below} {after} v r f g) e =
    let q = All-split _ below after e.1 in
    owner (ground (arith, v, e.0)) r (Forest-live f q.0) (Forest-live g q.1)

moved :
    (h h' : Store) {p : ℕ} {l : List ℕ}
    → h'.next ≡ h.next
    → h'.child ≡ h.child
    → h'.type_ ≡ h.type_
    → Forest h'.live h.next h.child h.type_ p l
    → Holds h' p l
moved h h' {p} {l} n c t f =
    subst (λ m. Forest h'.live m h'.child h'.type_ p l) (sym n)
      (subst (λ m. Forest h'.live h.next m h'.type_ p l) (sym c)
        (subst (λ m. Forest h'.live h.next h.child m p l) (sym t) f))

pub then-Returns :
    {A B : Type 0} {P : A × Store → Type 0} {Q : B × Store → Type 0} {m : Outcome (A × Store)}
    → Returns P m
    → (k : A → Action B) → ((r : A × Store) → P r → Returns Q (k r.0 r.1))
    → Returns Q (and_then m k)
then-Returns (returns p) k next = next _ p

-- The item itself is given back last, and then the chain behind it.
module _ (p : ℕ) (below after : List ℕ) (h h1 h2 h4 : Store) where
  abbrev without_item : Store
  without_item = record h2 { live = update h2.live p false; memory = cjson_dealloc h2.memory }

  others-Kept : (a : ℕ) → a ≢ p → Texts p h1 h2 → Kept h1 without_item a
  others-Kept a n t =
      let k = t.others a n in
      record {
        live = ground (arith, k.live, n);
        values = k.values;
        names = k.names;
        valuestring = k.valuestring;
        string = k.string;
      }

  Freed-item :
      AreDistinct (p ∷ below ++ after)
      → Freed below h h1
      → Texts p h1 h2
      → Freed after without_item h4
      → Freed (p ∷ below ++ after) h h4
  Freed-item u f s g =
      let q = AreDistinct-split below after u.1 in
      let n = All-split _ below after u.0 in
      let last = g.kept p n.1 in
      let item : Gone h1 h4 p = record {
        live = ground (arith, last.live);
        values = last.values ∙ s.values;
        names = last.names ∙ s.names;
      } in
      record {
        kept = λ a o.
            let o' = All-split _ below after o.1 in
            Kept-trans (f.kept a o'.0)
              (Kept-trans (others-Kept a (λ e. o.0 (sym e)) s) (g.kept a o'.1));
        freed = (
          Kept-Gone f.type_ (f.kept p n.0) item,
          All-append _ below after
              (All-map2
                (λ b e (o : (b ≢ p) × NotIn b after).
                  Gone-Kept e (Kept-trans (others-Kept b o.0 s) (g.kept b o.1)))
                below f.freed
                (All-map2 {Q = λ b. NotIn b after} {R = λ b. (b ≢ p) × NotIn b after}
                  (λ b m o. (m, o)) below n.0 q.1))
              (All-map2
                (λ b e (o : (b ≢ p) × NotIn b below).
                  Kept-Gone (s.same.type_ ∙ f.type_)
                    (Kept-trans (f.kept b o.1) (others-Kept b o.0 s)) e)
                after g.freed (All-map2 (λ b m o. (m, o)) after n.1 (apart_sym below after q.1))),
        );
        next = g.next ∙ s.same.next ∙ f.next;
        prev = g.prev ∙ s.same.prev ∙ f.prev;
        child = g.child ∙ s.same.child ∙ f.child;
        type_ = g.type_ ∙ s.same.type_ ∙ f.type_;
      }

module _ (p : ℕ) (below after : List ℕ) (h h1 : Store) (rest : Action (Unit {0})) where
  item-Freed :
      is_item h p ≡ true
      → AreDistinct (p ∷ below ++ after)
      → Freed below h h1
      → ((h3 : Store)
          → h3.next ≡ h.next
          → h3.child ≡ h.child
          → h3.type_ ≡ h.type_
          → All (λ a. h3.live a ≡ h.live a) after
          → Returns (λ r. Freed after h3 r.1) (rest h3))
      → Returns
          (λ r. Freed (p ∷ below ++ after) h r.1)
          ((free_texts (h.type_ p) p >> free_item p >> rest) h1)
  item-Freed v u f go =
      let q = AreDistinct-split below after u.1 in
      let n = All-split _ below after u.0 in
      let v1 : is_item h1 p ≡ true = ground (arith, v, (f.kept p n.0).live) in
      then-Returns
        (subst (λ t. Returns (λ r. Texts p h1 r.1) (free_texts t p h1)) (ap (λ g. g p) f.type_)
          (free_texts-Texts p h1 v1))
        _
        λ r s.
          simp (free_item-ok, SameItems-item p s.same v1)
            (Returns-mono
              (go _ (s.same.next ∙ f.next) (s.same.child ∙ f.child) (s.same.type_ ∙ f.type_) (
                All-map2 (λ a o d. ground (arith, ap (λ l. l a) s.same.live, (f.kept a o).live, d))
                  after (apart_sym below after q.1) n.1))
              (λ r' g. Freed-item p below after h h1 r.1 r'.1 u f s g))

Freed-none : (h : Store) → Freed [] h h
Freed-none h = record {
  kept = λ a o. Kept-refl h a;
  freed = tt;
  next = refl;
  prev = refl;
  child = refl;
  type_ = refl;
}

-- A child that is null holds nothing.
child_part :
    (delete : ℕ → Action (Unit {0})) {c : ℕ} {below : List ℕ} (h : Store)
    → Holds h c below
    → Returns (λ r. Freed below h r.1) (delete c h)
    → Returns (λ r. Freed below h r.1) ((if not (c == null) then delete c else pure tt) h)
child_part delete h empty r = returns (Freed-none h)
child_part delete h (reference {p} v _ _) r = rw (not_null h p v) r
child_part delete h (owner {p} v _ _ _) r = rw (not_null h p v) r

-- Where the chain from an address, with all that its items own, is a forest of distinct items, and with
-- more fuel than these: each of them is given back, and once each text that it owns, which are the
-- `valuestring` of what is no reference and the `string` that is not constant; no other item or text is
-- given back or changed, and there is no access to what is no item.
pub cjson_delete-Freed :
    (fuel : ℕ) {p : ℕ} {l : List ℕ} (h : Store)
    → Holds h p l
    → AreDistinct l
    → length l < fuel
    → Returns (λ r. Freed l h r.1) (cjson_delete fuel p h)
unfolding cjson_delete
cjson_delete-Freed zero h f u enough = absurd (omega arith)
cjson_delete-Freed (suc fuel) h empty u enough = returns (Freed-none h)
cjson_delete-Freed (suc fuel) h (reference {p} {after} v r g) u enough =
    simp (not_null h p v, load-ok, v, r)
      (item-Freed p [] after h h (cjson_delete fuel (h.next p)) v u (Freed-none h) (λ h3 n c t l.
        cjson_delete-Freed fuel h3 (moved h h3 n c t (Forest-live g l)) u.1
          (omega (arith, enough))))
cjson_delete-Freed (suc fuel) h (owner {p} {below} {after} v r f g) u enough =
    let q = AreDistinct-split below after u.1 in
    let size = length-append below after in
    simp (not_null h p v, load-ok, v, r)
      (then-Returns
        (child_part (cjson_delete fuel) h f
          (cjson_delete-Freed fuel h f q.0.0 (omega (arith, enough, size))))
        _
        λ r1 d. item-Freed p below after h r1.1 (cjson_delete fuel (h.next p)) v u d (λ h3 n c t l.
          cjson_delete-Freed fuel h3 (moved h h3 n c t (Forest-live g l)) q.0.1
            (omega (arith, enough, size))))
