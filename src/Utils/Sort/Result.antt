-- ===== src/Utils/Sort/Result.antt =====
-- src/utils.rs: `sort_list` sorts.
use rust_json_port_mortem.Base.{
  ℕ, zero, suc, ◌+◌, ◌<◌, ◌≡◌, ◌≢◌, ◌∙◌, refl, ap, sym, subst, Bool, true, List, [], ◌∷◌, ◌++◌,
  arith, length, All, All-split, All-map, Returns, returns, Returns-mono, Bool-cases, inl, inr,
}
use rust_json_port_mortem.Manip.Links.{Store, null, valid, ◌>>=◌, ◌>>◌}
use rust_json_port_mortem.Manip.Links.Chain.{head_or, NotIn, Within, Nexts-same, Prevs-same}
use rust_json_port_mortem.Manip.Links.Middle.{AreDistinct-split, apart_sym}
use rust_json_port_mortem.Manip.Links.Steps.{not_null, load-ok}
use rust_json_port_mortem.Manip.Links.Delete.Forest.{then-Returns}
use rust_json_port_mortem.Utils.Sort.{less, split_lists, merge_loop, sort_list}
use rust_json_port_mortem.Utils.Sort.Lists.{
  merge, merge_sort, increasing, halve, halve-append, length-halve, parts, sizes, All-merge_sort,
  length-merge_sort,
}
use rust_json_port_mortem.Utils.Sort.Steps.{
  before, Linked, sorted_loop-increasing, middle_loop-halve, split_lists-Linked,
}
use rust_json_port_mortem.Utils.Sort.Merge.Loop.{Made, Within-trans, Within-refl, merge_loop-Made}

-- Changes within some items are changes within more.
widen :
    {h h' : Store} {p : ℕ} {xs zs : List ℕ}
    → ((c : ℕ) → NotIn c zs → NotIn c xs)
    → Within h h' p xs
    → Within h h' p zs
widen f w = record {
  live = w.live;
  next = λ a n. w.next a (f a n);
  prev = λ a n. w.prev a (f a n);
  child = w.child;
  type_ = w.type_;
  valuestring = w.valuestring;
  string = w.string;
  memory = w.memory;
  values_freed = w.values_freed;
  names_freed = w.names_freed;
}

-- A list of other items stays as it is.
Linked-Within :
    (h h' : Store) (start : ℕ) (xs ys : List ℕ)
    → Within h h' null xs
    → All (λ y. NotIn y xs) ys
    → Linked h start ys
    → Linked h' start ys
Linked-Within h h' start xs ys w apart l = record {
  items = subst (λ f. All (λ x. valid f x ≡ true) ys) (sym w.live) l.items;
  distinct = l.distinct;
  nexts = Nexts-same h.next h'.next ys null (All-map w.next ys apart) l.nexts;
  prevs = Prevs-same h.prev h'.prev start ys (All-map w.prev ys apart) l.prevs;
}

module _ (case_sensitive : Bool) where
  same_order :
      {h h' : Store} {p : ℕ} {xs : List ℕ}
      → Within h h' p xs
      → before case_sensitive h' ≡ before case_sensitive h
  same_order w = ap (λ f a b. less case_sensitive (f a) (f b)) w.string

  -- Two sorted parts are merged.
  merge_parts :
      (fuel : ℕ) (h h' : Store) (all front back : List ℕ) (start start' first second : ℕ)
      → Within h h' null all
      → Linked h' start front
      → Linked h' start' back
      → All (λ x. NotIn x back) front
      → ((c : ℕ) → NotIn c all → NotIn c front × NotIn c back)
      → first ≡ head_or null front
      → second ≡ head_or null back
      → 0 < length front + length back
      → length front + length back < fuel
      → Returns
          (Made h all (merge (before case_sensitive h) fuel front back))
          (merge_loop case_sensitive fuel null null first second h')
  merge_parts fuel h h' all front back start start' first second w l r apart inside e e' some_left
        enough =
      let run = λ (a b : ℕ). merge_loop case_sensitive fuel null null a b h' in
      let merged = λ (t : ℕ → ℕ → Bool) (q : ℕ × Store). Made h all (merge t fuel front back) q in
      subst (λ t. Returns (merged t) (run first second)) (same_order w)
        (subst (λ a. Returns (merged (before case_sensitive h')) (run a second)) (sym e)
          (subst (λ b. Returns (merged (before case_sensitive h')) (run (head_or null front) b))
            (sym e')
            (Returns-mono
              (merge_loop-Made case_sensitive all fuel h' [] front back
                (record {
                  start = null;
                  end = null;
                  from_x = start;
                  from_y = start';
                  done = tt;
                  distinct = tt;
                  nexts = tt;
                  prevs = tt;
                  left = l;
                  right = r;
                  apart_left = tt;
                  apart_right = tt;
                  apart = apart;
                  inside = λ c n. (let q = inside c n in (tt, q.0, q.1));
                })
                some_left enough)
              (λ q m. record {
                result = m.result;
                list = m.list;
                within = Within-trans w m.within;
              }))))

  sort_parts :
      (fuel : ℕ) (h : Store) (start x : ℕ) (xs : List ℕ) (y : ℕ) (ys : List ℕ)
      → ((h : Store) (start : ℕ) (l : List ℕ)
          → Linked h start l
          → length l < fuel
          → Returns
              (Made h l (merge_sort (before case_sensitive h) fuel l))
              (sort_list case_sensitive fuel (head_or null l) h))
      → Linked h start (x ∷ xs ++ y ∷ ys)
      → length (x ∷ xs) < fuel
      → length (y ∷ ys) < fuel
      → length (x ∷ xs) + length (y ∷ ys) < suc fuel
      → Returns
          (Made h (x ∷ xs ++ y ∷ ys) (
            merge
              (before case_sensitive h)
              (suc fuel)
              (merge_sort (before case_sensitive h) fuel (x ∷ xs))
              (merge_sort (before case_sensitive h) fuel (y ∷ ys))))
          ((split_lists y
              >> (sort_list case_sensitive fuel x >>= λ first.
                  sort_list case_sensitive fuel y
                  >>= merge_loop case_sensitive (suc fuel) null null first))
            h)
  sort_parts fuel h start x xs y ys sort l shorter shorter' both =
      let all = x ∷ xs ++ y ∷ ys in
      let test = before case_sensitive h in
      let front = merge_sort test fuel (x ∷ xs) in
      let back = merge_sort test fuel (y ∷ ys) in
      let u = AreDistinct-split (x ∷ xs) (y ∷ ys) l.distinct in
      then-Returns (split_lists-Linked h start x xs y ys l) _ λ r1 s.
        then-Returns
          (subst
            (λ t.
              Returns (Made r1.1 (x ∷ xs) (merge_sort t fuel (x ∷ xs)))
                (sort_list case_sensitive fuel x r1.1))
            (same_order s.1) (sort r1.1 start (x ∷ xs) s.0.0 shorter))
          _
          λ r2 m.
            let right =
              Linked-Within r1.1 r2.1 null (x ∷ xs) (y ∷ ys) m.within
                (apart_sym (x ∷ xs) (y ∷ ys) u.1) s.0.1 in
            then-Returns
              (subst
                (λ t.
                  Returns (Made r2.1 (y ∷ ys) (merge_sort t fuel (y ∷ ys)))
                    (sort_list case_sensitive fuel y r2.1))
                (same_order m.within ∙ same_order s.1) (sort r2.1 null (y ∷ ys) right shorter'))
              _
              λ r3 m'.
                let widen_front =
                  λ (c : ℕ) (n : NotIn c all). (All-split _ (x ∷ xs) (y ∷ ys) n).0 in
                let widen_back = λ (c : ℕ) (n : NotIn c all). (All-split _ (x ∷ xs) (y ∷ ys) n).1 in
                let size = length-merge_sort test fuel (x ∷ xs) shorter in
                let size' = length-merge_sort test fuel (y ∷ ys) shorter' in
                merge_parts (suc fuel) h r3.1 all front back m.list.0 m'.list.0 r2.0 r3.0
                  (Within-trans s.1
                    (Within-trans (widen widen_front m.within) (widen widen_back m'.within)))
                  (Linked-Within r2.1 r3.1 m.list.0 (y ∷ ys) front m'.within
                    (All-merge_sort test (λ z. NotIn z (y ∷ ys)) fuel (x ∷ xs) u.1) m.list.1)
                  m'.list.1
                  (All-merge_sort test (λ z. NotIn z back) fuel (x ∷ xs)
                    (All-map (λ z n. All-merge_sort test (λ b. b ≢ z) fuel (y ∷ ys) n) (x ∷ xs)
                      u.1))
                  (λ c n. (
                    All-merge_sort test (λ b. b ≢ c) fuel (x ∷ xs) (widen_front c n),
                    All-merge_sort test (λ b. b ≢ c) fuel (y ∷ ys) (widen_back c n),
                  ))
                  m.result m'.result (omega (arith, size)) (omega (arith, size, size', both))

  -- The second part is not empty.
  sort_split :
      (fuel : ℕ) (h : Store) (start x : ℕ) (xs back : List ℕ)
      → ((h : Store) (start : ℕ) (l : List ℕ)
          → Linked h start l
          → length l < fuel
          → Returns
              (Made h l (merge_sort (before case_sensitive h) fuel l))
              (sort_list case_sensitive fuel (head_or null l) h))
      → Linked h start (x ∷ xs ++ back)
      → 0 < length back
      → length (x ∷ xs) < fuel
      → length back < fuel
      → length (x ∷ xs) + length back < suc fuel
      → Returns
          (Made h (x ∷ xs ++ back) (
            merge
              (before case_sensitive h)
              (suc fuel)
              (merge_sort (before case_sensitive h) fuel (x ∷ xs))
              (merge_sort (before case_sensitive h) fuel back)))
          ((split_lists (head_or null back)
              >> (sort_list case_sensitive fuel x >>= λ first.
                  sort_list case_sensitive fuel (head_or null back)
                  >>= merge_loop case_sensitive (suc fuel) null null first))
            h)
  sort_split fuel h start x xs [] sort l some a b c = absurd (omega arith)
  sort_split fuel h start x xs (y ∷ ys) sort l some a b c =
      sort_parts fuel h start x xs y ys sort l a b c

  -- `sort_list` on a list of items, with fuel for each and one more, ends without an access to what is
  -- no item, and gives the list that merge sort makes of it; other links stay.
  pub sort_list-Made :
      (fuel : ℕ) (h : Store) (start : ℕ) (xs : List ℕ)
      → Linked h start xs
      → length xs < fuel
      → Returns
          (Made h xs (merge_sort (before case_sensitive h) fuel xs))
          (sort_list case_sensitive fuel (head_or null xs) h)
  unfolding sort_list merge_sort increasing halve
  sort_list-Made zero h start xs l e = absurd (omega arith)
  sort_list-Made (suc fuel) h start [] l e =
      returns (record { result = refl; list = (start, l); within = Within-refl h null [] })
  sort_list-Made (suc fuel) h start (x ∷ []) l e =
      simp (not_null h x l.items.0, load-ok, l.items.0, l.nexts.0)
        (returns
          (record { result = refl; list = (start, l); within = Within-refl h null (x ∷ []) }))
  sort_list-Made (suc fuel) h start (x ∷ y ∷ xs) l e =
      let all = x ∷ y ∷ xs in
      elim (Bool-cases (increasing (before case_sensitive h) all)) [
        | inl b ↦
            simp
              (
                not_null h x l.items.0,
                load-ok,
                l.items.0,
                l.nexts.0,
                not_null h y l.items.1.0,
                sorted_loop-increasing case_sensitive h (suc fuel) all l.items l.nexts e,
                b,
              )
              (returns
                (record { result = refl; list = (start, l); within = Within-refl h null all }))
        | inr b ↦
            simp
              (
                not_null h x l.items.0,
                load-ok,
                l.items.0,
                l.nexts.0,
                not_null h y l.items.1.0,
                sorted_loop-increasing case_sensitive h (suc fuel) all l.items l.nexts e,
                b,
                middle_loop-halve case_sensitive h (suc fuel) all all l.items l.items l.nexts
                    l.nexts (omega arith) e,
              )
              (let test = before case_sensitive h in
                let f = (halve (y ∷ xs) xs).0 in
                let back = (halve (y ∷ xs) xs).1 in
                let whole : x ∷ f ++ back ≡ all = halve-append all all (omega arith) in
                let q = sizes test fuel all b e in
                let front_size = length-halve all all (omega arith) in
                let size = parts test all in
                subst
                  (λ z.
                    Returns
                      (Made h z (
                        merge test (suc fuel) (merge_sort test fuel (x ∷ f))
                          (merge_sort test fuel back)))
                      ((split_lists (head_or null back)
                          >> (sort_list case_sensitive fuel x >>= λ first.
                              sort_list case_sensitive fuel (head_or null back)
                              >>= merge_loop case_sensitive (suc fuel) null null first))
                        h))
                  whole
                  (sort_split fuel h start x f back (sort_list-Made fuel)
                    (subst (Linked h start) (sym whole) l) (omega (arith, front_size, size)) q.0 q.1
                    (omega (arith, size, e))))
      ]
