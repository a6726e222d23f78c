-- ===== src/Manip/Links/Replace.antt =====
-- src/manip.rs: `cjson_replace_item_via_pointer` up to the deletion of the old item.
use rust_json_port_mortem.Base.{
  ℕ, ◌≡◌, refl, sym, true, List, [], ◌∷◌, ◌++◌, arith, All-append, All-split, All-map, Returns,
  returns, ◌==◌, not, if◌then◌else◌,
}
use rust_json_port_mortem.Manip.Links.{
  Store, null, is_item, update, Action, pure, ◌>>=◌, ◌>>◌, set_next, set_prev, set_child, next_of,
  prev_of, child_of,
}
use rust_json_port_mortem.Manip.Links.Chain.{
  last_or, NotIn, Items, Within, Nexts-append, Nexts-frame, Nexts-last, Prevs-append, Prevs-frame,
  Prevs-head, last_or-NotIn, last_or-All, last_or-append,
}
use rust_json_port_mortem.Manip.Links.Steps.{
  not_null, unequal, equal, load-ok, set_next-ok, set_prev-ok, set_child-ok,
}
use rust_json_port_mortem.Manip.Links.Middle.{
  Around, Items-Around, AreDistinct-append, apart_insert,
}

-- `cjson_replace_item_via_pointer` behind its tests of null, without the deletion.
unfoldable pub replace_links : ℕ → ℕ → ℕ → Action (Unit {0})
replace_links parent item replacement =
    (next_of item >>= set_next replacement)
    >> (prev_of item >>= set_prev replacement)
    >> (next_of replacement >>= λ n. if not (n == null) then set_prev n replacement else pure tt)
    >> (child_of parent >>= λ c.
        if c == item
        then (prev_of c >>= λ p. if p == c then set_prev replacement replacement else pure tt)
          >> set_child parent replacement
        else (prev_of replacement >>= λ p.
            if not (p == null) then set_next p replacement else pure tt)
          >> (next_of replacement >>= λ n.
              if n == null then child_of parent >>= (λ c. set_prev c replacement) else pure tt))
    >> set_next item null
    >> set_prev item null

-- The state with the one item in place of the other.
pub record Replaced (h : Store) (p : ℕ) (xs : List ℕ) (item v : ℕ) (ys : List ℕ) (h' : Store)
    : Type 0 where
  pub items : Items h' p (xs ++ v ∷ ys)
  pub no_next : h'.next item ≡ null
  pub no_prev : h'.prev item ≡ null
  pub within : Within h h' p (v ∷ xs ++ item ∷ ys)

module _ (h : Store) (p item v : ℕ) (valid : is_item h v ≡ true) where
  only :
      (ys : List ℕ)
      → Around h p [] item ys
      → NotIn v (item ∷ ys)
      → Returns (λ r. Replaced h p [] item v ys r.1) (replace_links p item v h)
  unfolding replace_links
  only [] a n =
      simp
        (
          a.first,
          equal item,
          equal v,
          load-ok,
          set_next-ok,
          set_prev-ok,
          set_child-ok,
          valid,
          a.owner,
          a.item_here,
          a.next_here,
          a.prev_here,
          unequal item v n.0,
        )
        (returns (record {
          items = record {
            owner = a.owner;
            items = (valid, tt);
            distinct = (tt, tt);
            first = ground arith;
            nexts = (ground (arith, n.0), tt);
            prevs = (ground (arith, n.0), tt);
          };
          no_next = ground arith;
          no_prev = ground arith;
          within = record {
            live = refl;
            next = λ b o. ground (arith, o.0, o.1.0);
            prev = λ b o. ground (arith, o.0, o.1.0);
            child = λ b o. ground (arith, o);
            type_ = refl;
            valuestring = refl;
            string = refl;
            memory = refl;
            values_freed = refl;
            names_freed = refl;
          };
        }))
  only (y ∷ ys) a n =
      let L_item =
        unequal (last_or y ys) item (last_or-NotIn item y ys a.not_behind.0 a.not_behind.1) in
      simp
        (
          a.first,
          equal item,
          equal v,
          load-ok,
          set_next-ok,
          set_prev-ok,
          set_child-ok,
          valid,
          a.owner,
          a.item_here,
          a.next_here,
          a.prev_here,
          unequal item v n.0,
          a.items_behind.0,
          not_null h y a.items_behind.0,
          unequal item y (λ e. a.not_behind.0 (sym e)),
          L_item,
        )
        (returns (record {
          items = record {
            owner = a.owner;
            items = (valid, a.items_behind);
            distinct = (n.1, a.distinct_behind);
            first = ground arith;
            nexts = (
              ground (arith, n.0),
              Nexts-frame (update h.next v y) item null (y ∷ ys) null a.not_behind
                  (Nexts-frame h.next v y (y ∷ ys) null n.1 a.nexts_behind),
            );
            prevs = (
              ground (arith, n.0, n.1.0),
              Prevs-frame (update (update h.prev v (last_or y ys)) y v) item null v (y ∷ ys)
                  a.not_behind
                  (Prevs-head (update h.prev v (last_or y ys)) null item v (y ∷ ys)
                    a.distinct_behind
                    (Prevs-frame h.prev v (last_or y ys) item (y ∷ ys) n.1 a.prevs_behind)),
            );
          };
          no_next = ground arith;
          no_prev = ground arith;
          within = record {
            live = refl;
            next = λ b o. ground (arith, o.0, o.1.0);
            prev = λ b o. ground (arith, o.0, o.1.0, o.1.1.0);
            child = λ b o. ground (arith, o);
            type_ = refl;
            valuestring = refl;
            string = refl;
            memory = refl;
            values_freed = refl;
            names_freed = refl;
          };
        }))

  behind_first :
      (x : ℕ) (xs ys : List ℕ)
      → Around h p (x ∷ xs) item ys
      → NotIn v (x ∷ xs ++ item ∷ ys)
      → Returns (λ r. Replaced h p (x ∷ xs) item v ys r.1) (replace_links p item v h)
  unfolding replace_links
  behind_first x xs [] a n =
      let last = last_or x xs in
      let at_last = last_or-All (λ z. is_item h z ≡ true) x xs a.items_before.0 a.items_before.1 in
      let m = All-split _ (x ∷ xs) (item ∷ []) n in
      let last_v = last_or-NotIn v x xs m.0.0 m.0.1 in
      simp
        (
          a.first,
          unequal x item a.not_before.0,
          equal v,
          load-ok,
          set_next-ok,
          set_prev-ok,
          valid,
          a.owner,
          a.item_here,
          a.next_here,
          a.prev_here,
          at_last,
          not_null h last at_last,
          unequal v last (λ e. last_v (sym e)),
          a.items_before.0,
        )
        (returns (record {
          items = record {
            owner = a.owner;
            items = All-append _ (x ∷ xs) (v ∷ []) a.items_before (valid, tt);
            distinct =
                AreDistinct-append (x ∷ xs) (v ∷ []) a.distinct_before (tt, tt)
                  (apart_insert v (x ∷ xs) [] m.0 a.apart);
            first = a.first;
            nexts =
                Nexts-append _ (x ∷ xs) (v ∷ []) null
                  (Nexts-frame (update (update h.next v null) last v) item null (x ∷ xs) v
                    a.not_before
                    (Nexts-last (update h.next v null) null item v (x ∷ xs) a.distinct_before
                      (Nexts-frame h.next v null (x ∷ xs) item m.0 a.nexts_before)))
                  (ground (arith, m.1.0, last_v), tt);
            prevs = rw (last_or-append null v (x ∷ xs) []) (
                Prevs-append _ v (x ∷ xs) (v ∷ [])
                  (Prevs-frame (update (update h.prev v last) x v) item null v (x ∷ xs) a.not_before
                    (Prevs-head (update h.prev v last) null item v (x ∷ xs) a.distinct_before
                      (Prevs-frame h.prev v last item (x ∷ xs) m.0 a.prevs_before)))
                  (ground (arith, m.1.0, m.0.0), tt));
          };
          no_next = ground arith;
          no_prev = ground arith;
          within = record {
            live = refl;
            next = λ b o.
                (let q = All-split _ (x ∷ xs) (item ∷ []) o.1 in
                  ground (arith, o.0, last_or-NotIn b x xs q.0.0 q.0.1, q.1.0));
            prev = λ b o.
                (let q = All-split _ (x ∷ xs) (item ∷ []) o.1 in ground (arith, o.0, q.0.0, q.1.0));
            child = λ b o. refl;
            type_ = refl;
            valuestring = refl;
            string = refl;
            memory = refl;
            values_freed = refl;
            names_freed = refl;
          };
        }))
  behind_first x xs (y ∷ ys) a n =
      let last = last_or x xs in
      let at_last = last_or-All (λ z. is_item h z ≡ true) x xs a.items_before.0 a.items_before.1 in
      let m = All-split _ (x ∷ xs) (item ∷ y ∷ ys) n in
      let last_v = last_or-NotIn v x xs m.0.0 m.0.1 in
      simp
        (
          a.first,
          unequal x item a.not_before.0,
          equal v,
          load-ok,
          set_next-ok,
          set_prev-ok,
          valid,
          a.owner,
          a.item_here,
          a.next_here,
          a.prev_here,
          at_last,
          not_null h last at_last,
          unequal v last (λ e. last_v (sym e)),
          a.items_behind.0,
          not_null h y a.items_behind.0,
          unequal v y (λ e. m.1.1.0 (sym e)),
        )
        (returns (record {
          items = record {
            owner = a.owner;
            items = All-append _ (x ∷ xs) (v ∷ y ∷ ys) a.items_before (valid, a.items_behind);
            distinct =
                AreDistinct-append (x ∷ xs) (v ∷ y ∷ ys) a.distinct_before
                  (m.1.1, a.distinct_behind) (apart_insert v (x ∷ xs) (y ∷ ys) m.0 a.apart);
            first = a.first;
            nexts =
                Nexts-append _ (x ∷ xs) (v ∷ y ∷ ys) null
                  (Nexts-frame (update (update h.next v y) last v) item null (x ∷ xs) v a.not_before
                    (Nexts-last (update h.next v y) null item v (x ∷ xs) a.distinct_before
                      (Nexts-frame h.next v y (x ∷ xs) item m.0 a.nexts_before)))
                  (
                    ground (arith, m.1.0, last_v),
                    Nexts-frame (update (update h.next v y) last v) item null (y ∷ ys) null
                        a.not_behind
                        (Nexts-frame (update h.next v y) last v (y ∷ ys) null
                          (last_or-All (λ z. NotIn z (y ∷ ys)) x xs a.apart.0 a.apart.1)
                          (Nexts-frame h.next v y (y ∷ ys) null m.1.1 a.nexts_behind)),
                  );
            prevs = rw (last_or-append null v (x ∷ xs) (y ∷ ys)) (
                Prevs-append _ (last_or y ys) (x ∷ xs) (v ∷ y ∷ ys)
                  (Prevs-frame (update (update h.prev v last) y v) item null (last_or y ys) (x ∷ xs)
                    a.not_before
                    (Prevs-frame (update h.prev v last) y v (last_or y ys) (x ∷ xs)
                      (All-map (λ z q e. q.0 (sym e)) (x ∷ xs) a.apart)
                      (Prevs-frame h.prev v last (last_or y ys) (x ∷ xs) m.0 a.prevs_before)))
                  (
                    ground (arith, m.1.0, m.1.1.0),
                    Prevs-frame (update (update h.prev v last) y v) item null v (y ∷ ys)
                        a.not_behind
                        (Prevs-head (update h.prev v last) null item v (y ∷ ys) a.distinct_behind
                          (Prevs-frame h.prev v last item (y ∷ ys) m.1.1 a.prevs_behind)),
                  ));
          };
          no_next = ground arith;
          no_prev = ground arith;
          within = record {
            live = refl;
            next = λ b o.
                (let q = All-split _ (x ∷ xs) (item ∷ y ∷ ys) o.1 in
                  ground (arith, o.0, last_or-NotIn b x xs q.0.0 q.0.1, q.1.0));
            prev = λ b o.
                (let q = All-split _ (x ∷ xs) (item ∷ y ∷ ys) o.1 in
                  ground (arith, o.0, q.1.0, q.1.1.0));
            child = λ b o. refl;
            type_ = refl;
            valuestring = refl;
            string = refl;
            memory = refl;
            values_freed = refl;
            names_freed = refl;
          };
        }))

-- Another item takes the place of an item in an array or object, without an access to what is no item:
-- the rest keeps its order, the old item leads nowhere, and other links stay.
pub replace_links-Replaced :
    (h : Store) (parent item replacement : ℕ) (xs ys : List ℕ)
    → Items h parent (xs ++ item ∷ ys)
    → is_item h replacement ≡ true
    → NotIn replacement (xs ++ item ∷ ys)
    → Returns
        (λ r. Replaced h parent xs item replacement ys r.1)
        (replace_links parent item replacement h)
replace_links-Replaced h parent item replacement [] ys i valid n =
    only h parent item replacement valid ys (Items-Around h parent [] item ys i) n
replace_links-Replaced h parent item replacement (x ∷ xs) ys i valid n =
    behind_first h parent item replacement valid x xs ys (Items-Around h parent (x ∷ xs) item ys i)
      n
