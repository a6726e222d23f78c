-- ===== src/Manip/Links/Chain.antt =====
-- src/manip.rs: the chain of the items that an array or object holds.
use rust_json_port_mortem.Base.{
  ℕ, ◌≡◌, ◌≢◌, ◌∙◌, refl, sym, subst, true, List, [], ◌∷◌, ◌++◌, arith, All, All-map,
}
use rust_json_port_mortem.Manip.Links.{Store, null, is_item, valid, update}

abbrev pub head_or : ℕ → List ℕ → ℕ
head_or d [] = d
head_or d (x ∷ xs) = x

abbrev pub last_or : ℕ → List ℕ → ℕ
last_or d [] = d
last_or d (x ∷ xs) = last_or x xs

-- Each address but the last leads to the one behind it, the last to `end`.
abbrev pub Nexts : (ℕ → ℕ) → List ℕ → ℕ → Type 0
Nexts f [] end = Unit
Nexts f (x ∷ xs) end = (f x ≡ head_or end xs) × Nexts f xs end

-- Each address but the first leads back to the one before it, the first to `start`.
abbrev pub Prevs : (ℕ → ℕ) → ℕ → List ℕ → Type 0
Prevs f start [] = Unit
Prevs f start (x ∷ xs) = (f x ≡ start) × Prevs f x xs

abbrev pub NotIn : ℕ → List ℕ → Type 0
NotIn a = All (λ x. x ≢ a)

abbrev pub AreDistinct : List ℕ → Type 0
AreDistinct [] = Unit
AreDistinct (x ∷ xs) = NotIn x xs × AreDistinct xs

pub last_or-All : (P : ℕ → Type 0) (d : ℕ) (xs : List ℕ) → P d → All P xs → P (last_or d xs)
last_or-All P d [] h k = h
last_or-All P d (x ∷ xs) h k = last_or-All P x xs k.0 k.1

pub last_or-NotIn : (x d : ℕ) (xs : List ℕ) → d ≢ x → NotIn x xs → last_or d xs ≢ x
last_or-NotIn x d xs n h = last_or-All (λ y. y ≢ x) d xs n h

pub last_or-append : (d x : ℕ) (xs ys : List ℕ) → last_or d (xs ++ x ∷ ys) ≡ last_or x ys
last_or-append d x [] ys = refl
last_or-append d x (y ∷ xs) ys = last_or-append y x xs ys

module _ (f : ℕ → ℕ) where
  pub Nexts-append :
      (xs ys : List ℕ) (end : ℕ)
      → Nexts f xs (head_or end ys)
      → Nexts f ys end
      → Nexts f (xs ++ ys) end
  Nexts-append [] ys end h k = k
  Nexts-append (x ∷ []) ys end h k = (h.0, k)
  Nexts-append (x ∷ y ∷ xs) ys end h k = (h.0, Nexts-append (y ∷ xs) ys end h.1 k)

  pub Nexts-split :
      (xs ys : List ℕ) (end : ℕ)
      → Nexts f (xs ++ ys) end
      → Nexts f xs (head_or end ys) × Nexts f ys end
  Nexts-split [] ys end h = (tt, h)
  Nexts-split (x ∷ []) ys end h = ((h.0, tt), h.1)
  Nexts-split (x ∷ y ∷ xs) ys end h = let r = Nexts-split (y ∷ xs) ys end h.1 in ((h.0, r.0), r.1)

  pub Prevs-append :
      (start : ℕ) (xs ys : List ℕ)
      → Prevs f start xs
      → Prevs f (last_or start xs) ys
      → Prevs f start (xs ++ ys)
  Prevs-append start [] ys h k = k
  Prevs-append start (x ∷ xs) ys h k = (h.0, Prevs-append x xs ys h.1 k)

  pub Prevs-split :
      (start : ℕ) (xs ys : List ℕ)
      → Prevs f start (xs ++ ys)
      → Prevs f start xs × Prevs f (last_or start xs) ys
  Prevs-split start [] ys h = (tt, h)
  Prevs-split start (x ∷ xs) ys h = let r = Prevs-split x xs ys h.1 in ((h.0, r.0), r.1)

  -- A write elsewhere leaves a chain as it is.
  pub Nexts-frame :
      (a v : ℕ) (xs : List ℕ) (end : ℕ) → NotIn a xs → Nexts f xs end → Nexts (update f a v) xs end
  Nexts-frame a v [] end n h = tt
  Nexts-frame a v (x ∷ xs) end n h = (ground (arith, n.0, h.0), Nexts-frame a v xs end n.1 h.1)

  pub Prevs-frame :
      (a v start : ℕ) (xs : List ℕ) → NotIn a xs → Prevs f start xs → Prevs (update f a v) start xs
  Prevs-frame a v start [] n h = tt
  Prevs-frame a v start (x ∷ xs) n h = (ground (arith, n.0, h.0), Prevs-frame a v x xs n.1 h.1)

  -- A write to the last address changes where the chain ends, one to the first where it starts.
  pub Nexts-last :
      (d end end' : ℕ) (xs : List ℕ)
      → AreDistinct xs
      → Nexts f xs end
      → Nexts (update f (last_or d xs) end') xs end'
  Nexts-last d end end' [] u h = tt
  Nexts-last d end end' (x ∷ []) u h = (ground arith, tt)
  Nexts-last d end end' (x ∷ y ∷ xs) u h = (
    ground (arith, last_or-NotIn x y xs u.0.0 u.0.1, h.0),
    Nexts-last x end end' (y ∷ xs) u.1 h.1,
  )

  pub Prevs-head :
      (d start start' : ℕ) (xs : List ℕ)
      → AreDistinct xs
      → Prevs f start xs
      → Prevs (update f (head_or d xs) start') start' xs
  Prevs-head d start start' [] u h = tt
  Prevs-head d start start' (x ∷ xs) u h = (ground arith, Prevs-frame x start' x xs u.0 h.1)

-- What `p` holds are the items `xs`, in this order: `prev` of the first leads to the last.
pub record Items (h : Store) (p : ℕ) (xs : List ℕ) : Type 0 where
  pub owner : is_item h p ≡ true
  pub items : All (λ x. is_item h x ≡ true) xs
  pub distinct : AreDistinct xs
  pub first : h.child p ≡ head_or null xs
  pub nexts : Nexts h.next xs null
  pub prevs : Prevs h.prev (last_or null xs) xs

-- From the one state to the other only the links of `at` and what `p` holds have changed.
pub record Within (h h' : Store) (p : ℕ) (at : List ℕ) : Type 0 where
  pub live : h'.live ≡ h.live
  pub next : (a : ℕ) → NotIn a at → h'.next a ≡ h.next a
  pub prev : (a : ℕ) → NotIn a at → h'.prev a ≡ h.prev a
  pub child : (a : ℕ) → a ≢ p → h'.child a ≡ h.child a
  pub type_ : h'.type_ ≡ h.type_
  pub valuestring : h'.valuestring ≡ h.valuestring
  pub string : h'.string ≡ h.string
  pub memory : h'.memory ≡ h.memory
  pub values_freed : h'.values_freed ≡ h.values_freed
  pub names_freed : h'.names_freed ≡ h.names_freed

-- What another item holds stays as it is.
module _ (f g : ℕ → ℕ) where
  pub Nexts-same :
      (xs : List ℕ) (end : ℕ) → All (λ x. g x ≡ f x) xs → Nexts f xs end → Nexts g xs end
  Nexts-same [] end e h = tt
  Nexts-same (x ∷ xs) end e h = (e.0 ∙ h.0, Nexts-same xs end e.1 h.1)

  pub Prevs-same :
      (start : ℕ) (xs : List ℕ) → All (λ x. g x ≡ f x) xs → Prevs f start xs → Prevs g start xs
  Prevs-same start [] e h = tt
  Prevs-same start (x ∷ xs) e h = (e.0 ∙ h.0, Prevs-same x xs e.1 h.1)

pub Within-Items :
    (h h' : Store) (p q : ℕ) (at ys : List ℕ)
    → Within h h' p at
    → q ≢ p
    → All (λ y. NotIn y at) ys
    → Items h q ys
    → Items h' q ys
Within-Items h h' p q at ys w other apart i = record {
  owner = subst (λ l. valid l q ≡ true) (sym w.live) i.owner;
  items = subst (λ l. All (λ x. valid l x ≡ true) ys) (sym w.live) i.items;
  distinct = i.distinct;
  first = w.child q other ∙ i.first;
  nexts = Nexts-same h.next h'.next ys null (All-map w.next ys apart) i.nexts;
  prevs = Prevs-same h.prev h'.prev (last_or null ys) ys (All-map w.prev ys apart) i.prevs;
}
