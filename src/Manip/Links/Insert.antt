-- ===== src/Manip/Links/Insert.antt =====
-- src/manip.rs: `cjson_insert_item_in_array` inserts at an index.
use rust_json_port_mortem.Base.{
  ℕ, ◌≡◌, ◌≢◌, refl, sym, subst, true, List, [], ◌∷◌, ◌++◌, arith, All-append, All-split, Returns,
  returns, get_or, inl, inr, Bool,
}
use rust_json_port_mortem.Model.{pos}
use rust_json_port_mortem.Manip.Links.{Store, null, is_item, update}
use rust_json_port_mortem.Manip.Links.Chain.{
  last_or, NotIn, Items, Within, Nexts-append, Nexts-frame, Nexts-last, Prevs-append, Prevs-frame,
  Prevs-head, last_or-NotIn, last_or-All, last_or-append,
}
use rust_json_port_mortem.Manip.Links.Steps.{
  not_null, unequal, equal, load-ok, set_next-ok, set_prev-ok, set_child-ok,
}
use rust_json_port_mortem.Manip.Links.Middle.{
  Around, Items-Around, AreDistinct-append, AreDistinct-split, apart_insert,
}
use rust_json_port_mortem.Manip.Links.Add.{add_item_to_array-Items}
use rust_json_port_mortem.Manip.Links.Index.{get_array_item-get_or, insert_at, At-cases}
use rust_json_port_mortem.Manip.Links.Operations.{cjson_insert_item_in_array}

-- The state with the item in the chain `xs`.
abbrev pub Inserted : Store → ℕ → ℕ → List ℕ → List ℕ → Bool × Store → Type 0
Inserted h array newitem old xs r =
    (r.0 ≡ true) × Items r.1 array xs × Within h r.1 array (newitem ∷ old)

module _ (h : Store) (array newitem : ℕ) (v : is_item h newitem ≡ true) (index : ℕ) where
  before_first :
      (y : ℕ) (ys : List ℕ)
      → Around h array [] y ys
      → get_or (y ∷ ys) index null ≡ y
      → Items h array (y ∷ ys)
      → NotIn newitem (y ∷ ys)
      → Returns
          (Inserted h array newitem (y ∷ ys) (newitem ∷ y ∷ ys))
          (cjson_insert_item_in_array array (pos index) newitem h)
  unfolding cjson_insert_item_in_array
  before_first y ys a found i n =
      simp
        (
          not_null h newitem v,
          get_array_item-get_or h array index (y ∷ ys) i,
          found,
          not_null h y a.item_here,
          a.first,
          equal y,
          load-ok,
          set_next-ok,
          set_prev-ok,
          set_child-ok,
          a.owner,
          a.item_here,
          a.prev_here,
          v,
        )
        (returns (
          refl,
          record {
            owner = a.owner;
            items = (v, i.items);
            distinct = (n, i.distinct);
            first = ground arith;
            nexts = (ground arith, Nexts-frame h.next newitem y (y ∷ ys) null n i.nexts);
            prevs = (
              ground (arith, n.0),
              Prevs-head (update h.prev newitem (last_or y ys)) null (last_or y ys) newitem (y ∷ ys)
                  i.distinct
                  (Prevs-frame h.prev newitem (last_or y ys) (last_or y ys) (y ∷ ys) n i.prevs),
            );
          },
          record {
            live = refl;
            next = λ b o. ground (arith, o.0);
            prev = λ b o. ground (arith, o.0, o.1.0);
            child = λ b o. ground (arith, o);
            type_ = refl;
            valuestring = refl;
            string = refl;
            memory = refl;
            values_freed = refl;
            names_freed = refl;
          },
        ))

  behind :
      (x : ℕ) (xs : List ℕ) (y : ℕ) (ys : List ℕ)
      → Around h array (x ∷ xs) y ys
      → get_or (x ∷ xs ++ y ∷ ys) index null ≡ y
      → Items h array (x ∷ xs ++ y ∷ ys)
      → NotIn newitem (x ∷ xs ++ y ∷ ys)
      → Returns
          (Inserted h array newitem (x ∷ xs ++ y ∷ ys) (x ∷ xs ++ newitem ∷ y ∷ ys))
          (cjson_insert_item_in_array array (pos index) newitem h)
  unfolding cjson_insert_item_in_array
  behind x xs y ys a found i n =
      let last = last_or x xs in
      let at_last = last_or-All (λ z. is_item h z ≡ true) x xs a.items_before.0 a.items_before.1 in
      let u = AreDistinct-split (x ∷ xs) (y ∷ ys) i.distinct in
      let n' = All-split _ (x ∷ xs) (y ∷ ys) n in
      let there : update (update h.prev newitem last) y newitem newitem ≡ last =
        ground (arith, n'.1.0) in
      simp
        (
          not_null h newitem v,
          get_array_item-get_or h array index (x ∷ xs ++ y ∷ ys) i,
          found,
          not_null h y a.item_here,
          a.first,
          unequal y x (λ e. a.not_before.0 (sym e)),
          load-ok,
          set_next-ok,
          set_prev-ok,
          a.owner,
          a.item_here,
          a.prev_here,
          v,
          not_null h last at_last,
          at_last,
          there,
        )
        (returns (
          refl,
          record {
            owner = a.owner;
            items =
                All-append _ (x ∷ xs) (newitem ∷ y ∷ ys) a.items_before
                  (v, (a.item_here, a.items_behind));
            distinct =
                AreDistinct-append (x ∷ xs) (newitem ∷ y ∷ ys) a.distinct_before
                  (n'.1, (a.not_behind, a.distinct_behind))
                  (apart_insert newitem (x ∷ xs) (y ∷ ys) n'.0 u.1);
            first = a.first;
            nexts =
                Nexts-append _ (x ∷ xs) (newitem ∷ y ∷ ys) null
                  (Nexts-last (update h.next newitem y) null y newitem (x ∷ xs) a.distinct_before
                    (Nexts-frame h.next newitem y (x ∷ xs) y n'.0 a.nexts_before))
                  (
                    ground (arith, last_or-NotIn newitem x xs n'.0.0 n'.0.1),
                    Nexts-frame (update h.next newitem y) last newitem (y ∷ ys) null
                        (last_or-All (λ z. NotIn z (y ∷ ys)) x xs u.1.0 u.1.1)
                        (Nexts-frame h.next newitem y (y ∷ ys) null n'.1
                          (a.next_here, a.nexts_behind)),
                  );
            prevs = rw (last_or-append null newitem (x ∷ xs) (y ∷ ys)) (
                Prevs-append _ (last_or y ys) (x ∷ xs) (newitem ∷ y ∷ ys)
                  (Prevs-frame (update h.prev newitem last) y newitem (last_or y ys) (x ∷ xs)
                    a.not_before
                    (Prevs-frame h.prev newitem last (last_or y ys) (x ∷ xs) n'.0 a.prevs_before))
                  (
                    there,
                    Prevs-head (update h.prev newitem last) null last newitem (y ∷ ys)
                        (a.not_behind, a.distinct_behind)
                        (Prevs-frame h.prev newitem last last (y ∷ ys) n'.1
                          (a.prev_here, a.prevs_behind)),
                  ));
          },
          record {
            live = refl;
            next = λ b o.
                (let q = All-split _ (x ∷ xs) (y ∷ ys) o.1 in
                  ground (arith, o.0, last_or-NotIn b x xs q.0.0 q.0.1));
            prev = λ b o. (let q = All-split _ (x ∷ xs) (y ∷ ys) o.1 in ground (arith, o.0, q.1.0));
            child = λ b o. refl;
            type_ = refl;
            valuestring = refl;
            string = refl;
            memory = refl;
            values_freed = refl;
            names_freed = refl;
          },
        ))

  inserted_before :
      (xs : List ℕ) (y : ℕ) (ys : List ℕ)
      → get_or (xs ++ y ∷ ys) index null ≡ y
      → Items h array (xs ++ y ∷ ys)
      → NotIn newitem (xs ++ y ∷ ys)
      → Returns
          (Inserted h array newitem (xs ++ y ∷ ys) (xs ++ newitem ∷ y ∷ ys))
          (cjson_insert_item_in_array array (pos index) newitem h)
  inserted_before [] y ys found i n = before_first y ys (Items-Around h array [] y ys i) found i n
  inserted_before (x ∷ xs) y ys found i n =
      behind x xs y ys (Items-Around h array (x ∷ xs) y ys i) found i n

  appended :
      (xs : List ℕ)
      → get_or xs index null ≡ null
      → Items h array xs
      → NotIn newitem xs
      → h.next newitem ≡ null
      → array ≢ newitem
      → Returns
          (Inserted h array newitem xs (xs ++ newitem ∷ []))
          (cjson_insert_item_in_array array (pos index) newitem h)
  unfolding cjson_insert_item_in_array
  appended xs none i n end other =
      simp (not_null h newitem v, get_array_item-get_or h array index xs i, none)
        (add_item_to_array-Items h array newitem xs i v end n other)

-- An item that is not held and leads to no other is inserted before the item of the index, or behind the
-- last one where there is none, without an access to what is no item; other links stay.
pub cjson_insert_item_in_array-Items :
    (h : Store) (array index newitem : ℕ) (xs : List ℕ)
    → Items h array xs
    → is_item h newitem ≡ true
    → h.next newitem ≡ null
    → NotIn newitem xs
    → array ≢ newitem
    → Returns
        (Inserted h array newitem xs (insert_at index newitem xs))
        (cjson_insert_item_in_array array (pos index) newitem h)
cjson_insert_item_in_array-Items h array index newitem xs i v end n other =
    elim (At-cases index newitem xs) [
      | inl a ↦
          let found : get_or (a.before ++ a.here ∷ a.after) index null ≡ a.here =
            subst (λ l. get_or l index null ≡ a.here) a.all a.found in
          let done =
            inserted_before h array newitem v index a.before a.here a.after found
              (subst (Items h array) a.all i) (subst (NotIn newitem) a.all n) in
          subst
            (λ l.
              Returns (Inserted h array newitem l (insert_at index newitem xs))
                (cjson_insert_item_in_array array (pos index) newitem h))
            (sym a.all)
            (subst
              (λ l.
                Returns (Inserted h array newitem (a.before ++ a.here ∷ a.after) l)
                  (cjson_insert_item_in_array array (pos index) newitem h))
              (sym a.inserted) done)
      | inr p ↦ rw p.appended (appended h array newitem v index xs p.not_found i n end other)
    ]
