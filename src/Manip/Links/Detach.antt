-- ===== src/Manip/Links/Detach.antt =====
-- src/manip.rs: `cjson_detach_item_via_pointer` takes an item out.
use rust_json_port_mortem.Base.{
  ℕ, ◌≡◌, refl, sym, true, List, [], ◌∷◌, ◌++◌, arith, append-nil, All-append, All-split, All-map,
  Returns, returns,
}
use rust_json_port_mortem.Manip.Links.{Store, null, is_item, update}
use rust_json_port_mortem.Manip.Links.Chain.{
  last_or, NotIn, Items, Within, Nexts-append, Nexts-frame, Nexts-last, Prevs-append, Prevs-frame,
  Prevs-head, last_or-NotIn, last_or-All, last_or-append,
}
use rust_json_port_mortem.Manip.Links.Steps.{
  not_null, unequal, equal, load-ok, set_next-ok, set_prev-ok, set_child-ok,
}
use rust_json_port_mortem.Manip.Links.Middle.{Around, Items-Around, AreDistinct-append}
use rust_json_port_mortem.Manip.Links.Operations.{cjson_detach_item_via_pointer}

-- The state without the item.
pub record Detached (h : Store) (p : ℕ) (xs : List ℕ) (item : ℕ) (ys : List ℕ) (r : ℕ × Store)
    : Type 0 where
  pub result : r.0 ≡ item
  pub items : Items r.1 p (xs ++ ys)
  pub no_next : r.1.next item ≡ null
  pub no_prev : r.1.prev item ≡ null
  pub within : Within h r.1 p (xs ++ item ∷ ys)

outside :
    (b : ℕ) (xs : List ℕ) (item : ℕ) (ys : List ℕ)
    → NotIn b (xs ++ item ∷ ys)
    → NotIn b xs × NotIn b (item ∷ ys)
outside b xs item ys = All-split _ xs (item ∷ ys)

module _ (h : Store) (p item : ℕ) where
  only :
      (ys : List ℕ)
      → Around h p [] item ys
      → Returns (Detached h p [] item ys) (cjson_detach_item_via_pointer p item h)
  unfolding cjson_detach_item_via_pointer
  only [] a =
      simp
        (
          not_null h p a.owner,
          not_null h item a.item_here,
          a.first,
          equal item,
          load-ok,
          set_next-ok,
          set_prev-ok,
          set_child-ok,
          a.owner,
          a.item_here,
          a.next_here,
          a.prev_here,
        )
        (returns (record {
          result = refl;
          no_next = ground arith;
          no_prev = ground arith;
          items = record {
            owner = a.owner;
            items = tt;
            distinct = tt;
            first = ground arith;
            nexts = tt;
            prevs = tt;
          };
          within = record {
            live = refl;
            next = λ b o. ground (arith, o.0);
            prev = λ b o. ground (arith, o.0);
            child = λ b o. ground (arith, o);
            type_ = refl;
            valuestring = refl;
            string = refl;
            memory = refl;
            values_freed = refl;
            names_freed = refl;
          };
        }))
  only (y ∷ ys) a =
      simp
        (
          not_null h p a.owner,
          not_null h item a.item_here,
          a.first,
          equal item,
          load-ok,
          set_next-ok,
          set_prev-ok,
          set_child-ok,
          a.owner,
          a.item_here,
          a.next_here,
          a.prev_here,
          a.items_behind.0,
          not_null h y a.items_behind.0,
        )
        (returns (record {
          result = refl;
          no_next = ground arith;
          no_prev = ground arith;
          items = record {
            owner = a.owner;
            items = a.items_behind;
            distinct = a.distinct_behind;
            first = ground arith;
            nexts = Nexts-frame h.next item null (y ∷ ys) null a.not_behind a.nexts_behind;
            prevs =
                Prevs-frame (update h.prev y (last_or y ys)) item null (last_or y ys) (y ∷ ys)
                  a.not_behind
                  (Prevs-head h.prev null item (last_or y ys) (y ∷ ys) a.distinct_behind
                    a.prevs_behind);
          };
          within = record {
            live = refl;
            next = λ b o. ground (arith, o.0);
            prev = λ b o. ground (arith, o.0, o.1.0);
            child = λ b o. ground (arith, o);
            type_ = refl;
            valuestring = refl;
            string = refl;
            memory = refl;
            values_freed = refl;
            names_freed = refl;
          };
        }))

  behind_first :
      (x : ℕ) (xs ys : List ℕ)
      → Around h p (x ∷ xs) item ys
      → Returns (Detached h p (x ∷ xs) item ys) (cjson_detach_item_via_pointer p item h)
  unfolding cjson_detach_item_via_pointer
  behind_first x xs [] a =
      let last = last_or x xs in
      let at_last = last_or-All (λ y. is_item h y ≡ true) x xs a.items_before.0 a.items_before.1 in
      simp
        (
          not_null h p a.owner,
          not_null h item a.item_here,
          a.first,
          unequal item x (λ e. a.not_before.0 (sym e)),
          load-ok,
          set_next-ok,
          set_prev-ok,
          a.owner,
          a.item_here,
          a.next_here,
          a.prev_here,
          at_last,
          not_null h (last_or x xs) at_last,
          a.items_before.0,
        )
        (returns (record {
          result = refl;
          no_next = ground arith;
          no_prev = ground arith;
          items = record {
            owner = a.owner;
            items = All-append _ (x ∷ xs) [] a.items_before tt;
            distinct = AreDistinct-append (x ∷ xs) [] a.distinct_before tt a.apart;
            first = a.first;
            nexts =
                Nexts-append _ (x ∷ xs) [] null
                  (Nexts-frame (update h.next last null) item null (x ∷ xs) null a.not_before
                    (Nexts-last h.next null item null (x ∷ xs) a.distinct_before a.nexts_before))
                  tt;
            prevs = rw (append-nil xs) (
                Prevs-frame (update h.prev x last) item null last (x ∷ xs) a.not_before
                  (Prevs-head h.prev null item last (x ∷ xs) a.distinct_before a.prevs_before));
          };
          within = record {
            live = refl;
            next = λ b o.
                (let q = outside b (x ∷ xs) item [] o in
                  ground (arith, last_or-NotIn b x xs q.0.0 q.0.1, q.1.0));
            prev = λ b o. ground (arith, o.0, (outside b (x ∷ xs) item [] o).1.0);
            child = λ b o. refl;
            type_ = refl;
            valuestring = refl;
            string = refl;
            memory = refl;
            values_freed = refl;
            names_freed = refl;
          };
        }))
  behind_first x xs (y ∷ ys) a =
      let last = last_or x xs in
      let at_last = last_or-All (λ y. is_item h y ≡ true) x xs a.items_before.0 a.items_before.1 in
      simp
        (
          not_null h p a.owner,
          not_null h item a.item_here,
          a.first,
          unequal item x (λ e. a.not_before.0 (sym e)),
          load-ok,
          set_next-ok,
          set_prev-ok,
          a.owner,
          a.item_here,
          a.next_here,
          a.prev_here,
          at_last,
          not_null h (last_or x xs) at_last,
          a.items_behind.0,
          not_null h y a.items_behind.0,
        )
        (returns (record {
          result = refl;
          no_next = ground arith;
          no_prev = ground arith;
          items = record {
            owner = a.owner;
            items = All-append _ (x ∷ xs) (y ∷ ys) a.items_before a.items_behind;
            distinct =
                AreDistinct-append (x ∷ xs) (y ∷ ys) a.distinct_before a.distinct_behind a.apart;
            first = a.first;
            nexts =
                Nexts-append _ (x ∷ xs) (y ∷ ys) null
                  (Nexts-frame (update h.next last y) item null (x ∷ xs) y a.not_before
                    (Nexts-last h.next null item y (x ∷ xs) a.distinct_before a.nexts_before))
                  (Nexts-frame (update h.next last y) item null (y ∷ ys) null a.not_behind (
                    Nexts-frame h.next last y (y ∷ ys) null
                      (last_or-All (λ z. NotIn z (y ∷ ys)) x xs a.apart.0 a.apart.1)
                      a.nexts_behind));
            prevs = rw (last_or-append null y (x ∷ xs) ys) (
                Prevs-append _ (last_or y ys) (x ∷ xs) (y ∷ ys)
                  (Prevs-frame (update h.prev y last) item null (last_or y ys) (x ∷ xs) a.not_before
                    (Prevs-frame h.prev y last (last_or y ys) (x ∷ xs)
                      (All-map (λ z n e. n.0 (sym e)) (x ∷ xs) a.apart) a.prevs_before))
                  (Prevs-frame (update h.prev y last) item null last (y ∷ ys) a.not_behind
                    (Prevs-head h.prev null item last (y ∷ ys) a.distinct_behind a.prevs_behind)));
          };
          within = record {
            live = refl;
            next = λ b o.
                (let q = outside b (x ∷ xs) item (y ∷ ys) o in
                  ground (arith, last_or-NotIn b x xs q.0.0 q.0.1, q.1.0));
            prev = λ b o.
                (let q = outside b (x ∷ xs) item (y ∷ ys) o in ground (arith, q.1.0, q.1.1.0));
            child = λ b o. refl;
            type_ = refl;
            valuestring = refl;
            string = refl;
            memory = refl;
            values_freed = refl;
            names_freed = refl;
          };
        }))

-- An item between others, or before or behind them, is taken out of an array or object without an
-- access to what is no item: the others keep their order, the item leads nowhere, and other links stay.
pub cjson_detach_item_via_pointer-Items :
    (h : Store) (parent item : ℕ) (xs ys : List ℕ)
    → Items h parent (xs ++ item ∷ ys)
    → Returns (Detached h parent xs item ys) (cjson_detach_item_via_pointer parent item h)
cjson_detach_item_via_pointer-Items h parent item [] ys i =
    only h parent item ys (Items-Around h parent [] item ys i)
cjson_detach_item_via_pointer-Items h parent item (x ∷ xs) ys i =
    behind_first h parent item x xs ys (Items-Around h parent (x ∷ xs) item ys i)
