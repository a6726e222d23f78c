-- ===== src/Utils/Sort/Merge.antt =====
-- src/utils.rs: the state of the loop of `sort_list` that merges two lists.
pub mod Loop
use rust_json_port_mortem.Base.{
  ℕ, zero, suc, ◌+◌, ◌<◌, ◌≤◌, ◌≡◌, ◌≢◌, ◌∙◌, refl, ap, sym, subst, Bool, true, false, not, ◌&&◌,
  ◌||◌, List, [], ◌∷◌, ◌++◌, append-nil, append_assoc, arith, length, All, All-split, All-append,
  All-map, Returns, returns, Returns-mono, ◌==◌, Bool-cases, inl, inr,
}
use rust_json_port_mortem.Manip.Links.{Store, null, is_item, update}
use rust_json_port_mortem.Manip.Links.Chain.{
  head_or, last_or, Nexts, Prevs, NotIn, AreDistinct, Within, Nexts-append, Nexts-last, Nexts-frame,
  Prevs-append, Prevs-head, Prevs-frame, last_or-All, last_or-NotIn,
}
use rust_json_port_mortem.Manip.Links.Middle.{AreDistinct-append, apart_insert, apart_sym}
use rust_json_port_mortem.Manip.Links.Steps.{
  not_null, unequal, equal, load-ok, set_next-ok, set_prev-ok,
}
use rust_json_port_mortem.Utils.Sort.{less, append_rest, merge_loop}
use rust_json_port_mortem.Utils.Sort.Lists.{merge}
use rust_json_port_mortem.Utils.Sort.Steps.{before, Linked}

-- The merged list so far, `ds`, and what is left of the two lists; all are items of `zs`.
pub record Doing (h : Store) (zs ds xs ys : List ℕ) : Type 0 where
  pub start : ℕ
  pub end : ℕ
  pub from_x : ℕ
  pub from_y : ℕ
  pub done : All (λ x. is_item h x ≡ true) ds
  pub distinct : AreDistinct ds
  pub nexts : Nexts h.next ds end
  pub prevs : Prevs h.prev start ds
  pub left : Linked h from_x xs
  pub right : Linked h from_y ys
  pub apart_left : All (λ d. NotIn d xs) ds
  pub apart_right : All (λ d. NotIn d ys) ds
  pub apart : All (λ x. NotIn x ys) xs
  pub inside : (c : ℕ) → NotIn c zs → NotIn c ds × NotIn c xs × NotIn c ys

pub swap-Doing : {h : Store} {zs ds xs ys : List ℕ} → Doing h zs ds xs ys → Doing h zs ds ys xs
swap-Doing {xs = xs} {ys = ys} d = record {
  start = d.start;
  end = d.end;
  from_x = d.from_y;
  from_y = d.from_x;
  done = d.done;
  distinct = d.distinct;
  nexts = d.nexts;
  prevs = d.prevs;
  left = d.right;
  right = d.left;
  apart_left = d.apart_right;
  apart_right = d.apart_left;
  apart = apart_sym xs ys d.apart;
  inside = λ c n. (let q = d.inside c n in (q.0, q.2, q.1));
}

-- The first item starts the merged list.
pub begin-Doing :
    (h : Store) (zs : List ℕ) (x : ℕ) (xs ys : List ℕ)
    → Doing h zs [] (x ∷ xs) ys
    → Doing h zs (x ∷ []) xs ys
begin-Doing h zs x xs ys d = record {
  start = d.from_x;
  end = head_or null xs;
  from_x = x;
  from_y = d.from_y;
  done = (d.left.items.0, tt);
  distinct = (tt, tt);
  nexts = (d.left.nexts.0, tt);
  prevs = (d.left.prevs.0, tt);
  left = record {
    items = d.left.items.1;
    distinct = d.left.distinct.1;
    nexts = d.left.nexts.1;
    prevs = d.left.prevs.1;
  };
  right = d.right;
  apart_left = (d.left.distinct.0, tt);
  apart_right = (d.apart.0, tt);
  apart = d.apart.1;
  inside = λ c n. (let q = d.inside c n in ((q.1.0, tt), q.1.1, q.2));
}

-- The state with the next item linked behind the last one
abbrev pub linked : Store → ℕ → ℕ → Store
linked h last x = record h { next = update h.next last x; prev = update h.prev x last }

module _ (h : Store) (zs : List ℕ) (e : ℕ) (ds : List ℕ) (x : ℕ) (xs ys : List ℕ) where
  -- A list that holds neither of the two items stays as it is.
  Linked-frame :
      (start : ℕ) (l : List ℕ)
      → NotIn (last_or e ds) l
      → NotIn x l
      → Linked h start l
      → Linked (linked h (last_or e ds) x) start l
  Linked-frame start l n m k = record {
    items = k.items;
    distinct = k.distinct;
    nexts = Nexts-frame h.next (last_or e ds) x l null n k.nexts;
    prevs = Prevs-frame h.prev x (last_or e ds) start l m k.prevs;
  }

  pub link-Doing :
      Doing h zs (e ∷ ds) (x ∷ xs) ys
      → Doing (linked h (last_or e ds) x) zs (e ∷ ds ++ x ∷ []) xs ys
  link-Doing d =
      let last = last_or e ds in
      let not_left = last_or-All (λ z. NotIn z (x ∷ xs)) e ds d.apart_left.0 d.apart_left.1 in
      let not_right = last_or-All (λ z. NotIn z ys) e ds d.apart_right.0 d.apart_right.1 in
      let x_new : NotIn x (e ∷ ds) = All-map (λ z n f. n.0 (sym f)) (e ∷ ds) d.apart_left in
      record {
        start = d.start;
        end = head_or null xs;
        from_x = x;
        from_y = d.from_y;
        done = All-append _ (e ∷ ds) (x ∷ []) d.done (d.left.items.0, tt);
        distinct =
            AreDistinct-append (e ∷ ds) (x ∷ []) d.distinct (tt, tt)
              (apart_insert x (e ∷ ds) [] x_new (All-map (λ z n. tt) (e ∷ ds) d.done));
        nexts =
            Nexts-append _ (e ∷ ds) (x ∷ []) (head_or null xs)
              (Nexts-last h.next null d.end x (e ∷ ds) d.distinct d.nexts)
              (ground (arith, not_left.0, d.left.nexts.0), tt);
        prevs =
            Prevs-append _ d.start (e ∷ ds) (x ∷ [])
              (Prevs-frame h.prev x last d.start (e ∷ ds) x_new d.prevs) (ground arith, tt);
        left = Linked-frame x xs not_left.1 d.left.distinct.0 (record {
          items = d.left.items.1;
          distinct = d.left.distinct.1;
          nexts = d.left.nexts.1;
          prevs = d.left.prevs.1;
        });
        right = Linked-frame d.from_y ys not_right d.apart.0 d.right;
        apart_left =
            All-append _ (e ∷ ds) (x ∷ []) (All-map (λ z n. n.1) (e ∷ ds) d.apart_left)
              (d.left.distinct.0, tt);
        apart_right = All-append _ (e ∷ ds) (x ∷ []) d.apart_right (d.apart.0, tt);
        apart = d.apart.1;
        inside = λ c n.
            (let q = d.inside c n in (All-append _ (e ∷ ds) (x ∷ []) q.0 (q.1.0, tt), q.1.1, q.2));
      }

  -- The rest of a list is linked behind the last item.
  pub rest-Linked :
      Doing h zs (e ∷ ds) (x ∷ xs) ys
      → (start : ℕ) × Linked (linked h (last_or e ds) x) start (e ∷ ds ++ x ∷ xs)
  rest-Linked d =
      let last = last_or e ds in
      let not_left = last_or-All (λ z. NotIn z (x ∷ xs)) e ds d.apart_left.0 d.apart_left.1 in
      let x_new : NotIn x (e ∷ ds) = All-map (λ z n f. n.0 (sym f)) (e ∷ ds) d.apart_left in
      (
        d.start,
        record {
          items = All-append _ (e ∷ ds) (x ∷ xs) d.done d.left.items;
          distinct = AreDistinct-append (e ∷ ds) (x ∷ xs) d.distinct d.left.distinct d.apart_left;
          nexts =
              Nexts-append _ (e ∷ ds) (x ∷ xs) null
                (Nexts-last h.next null d.end x (e ∷ ds) d.distinct d.nexts)
                (Nexts-frame h.next last x (x ∷ xs) null not_left d.left.nexts);
          prevs =
              Prevs-append _ d.start (e ∷ ds) (x ∷ xs)
                (Prevs-frame h.prev x last d.start (e ∷ ds) x_new d.prevs)
                (Prevs-head h.prev null d.from_x last (x ∷ xs) d.left.distinct d.left.prevs);
        },
      )

  pub linked-Within : Doing h zs (e ∷ ds) (x ∷ xs) ys → Within h (linked h (last_or e ds) x) null zs
  linked-Within d = record {
    live = refl;
    next = λ c n. (let q = d.inside c n in ground (arith, last_or-NotIn c e ds q.0.0 q.0.1));
    prev = λ c n. (let q = d.inside c n in ground (arith, q.1.0));
    child = λ c n. refl;
    type_ = refl;
    valuestring = refl;
    string = refl;
    memory = refl;
    values_freed = refl;
    names_freed = refl;
  }
