-- ===== src/Manip/Links/Delete/Texts.antt =====
-- src/manip.rs: what `cjson_delete` gives back of an item, the blocks of its texts included.
use rust_json_port_mortem.Base.{
  ℕ, ◌+◌, ◌≡◌, ◌≢◌, ◌∙◌, refl, sym, ap, subst, Bool, true, false, none, not, ◌&&◌, arith, Returns,
  returns, Bool-cases, inl, inr, if◌then◌else◌,
}
use rust_json_port_mortem.Manip.Delete.{is_reference, is_string_is_const, is_some}
use rust_json_port_mortem.Alloc.{cjson_dealloc}
use rust_json_port_mortem.Manip.Links.{
  Store, is_item, valid, update, free_valuestring, free_string, set_string, set_valuestring,
}
use rust_json_port_mortem.Manip.Links.Steps.{load-ok, equal, unequal}
use rust_json_port_mortem.Manip.Links.Delete.{free_texts}

-- How many blocks an item owns as its `valuestring`, unless it is a reference, and as its `string`,
-- unless that is constant.
abbrev pub owned_values : Store → ℕ → ℕ
owned_values h a = if not (is_reference (h.type_ a)) && is_some (h.valuestring a) then 1 else 0

abbrev pub owned_names : Store → ℕ → ℕ
owned_names h a = if not (is_string_is_const (h.type_ a)) && is_some (h.string a) then 1 else 0

-- Neither the item nor a text of it was given back, and the texts are the same.
pub record Kept (h h' : Store) (a : ℕ) : Type 0 where
  pub live : h'.live a ≡ h.live a
  pub values : h'.values_freed a ≡ h.values_freed a
  pub names : h'.names_freed a ≡ h.names_freed a
  pub valuestring : h'.valuestring a ≡ h.valuestring a
  pub string : h'.string a ≡ h.string a

-- The item was given back, and each text that it owned once.
pub record Gone (h h' : Store) (a : ℕ) : Type 0 where
  pub live : h'.live a ≡ false
  pub values : h'.values_freed a ≡ h.values_freed a + owned_values h a
  pub names : h'.names_freed a ≡ h.names_freed a + owned_names h a

pub Kept-refl : (h : Store) (a : ℕ) → Kept h h a
Kept-refl h a = record {
  live = refl;
  values = refl;
  names = refl;
  valuestring = refl;
  string = refl;
}

module _ {h h' h'' : Store} {a : ℕ} where
  pub Kept-trans : Kept h h' a → Kept h' h'' a → Kept h h'' a
  Kept-trans k l = record {
    live = l.live ∙ k.live;
    values = l.values ∙ k.values;
    names = l.names ∙ k.names;
    valuestring = l.valuestring ∙ k.valuestring;
    string = l.string ∙ k.string;
  }

  pub Gone-Kept : Gone h h' a → Kept h' h'' a → Gone h h'' a
  Gone-Kept g k = record {
    live = k.live ∙ g.live;
    values = k.values ∙ g.values;
    names = k.names ∙ g.names;
  }

  pub Kept-Gone : h'.type_ ≡ h.type_ → Kept h h' a → Gone h' h'' a → Gone h h'' a
  Kept-Gone t k g =
      let value : owned_values h' a ≡ owned_values h a = rw (ap (λ f. f a) t, k.valuestring) refl in
      let name : owned_names h' a ≡ owned_names h a = rw (ap (λ f. f a) t, k.string) refl in
      record {
        live = g.live;
        values = omega (arith, g.values, k.values, value);
        names = omega (arith, g.names, k.names, name);
      }

-- The links and types are the same.
pub record SameItems (h h' : Store) : Type 0 where
  pub live : h'.live ≡ h.live
  pub next : h'.next ≡ h.next
  pub prev : h'.prev ≡ h.prev
  pub child : h'.child ≡ h.child
  pub type_ : h'.type_ ≡ h.type_

pub SameItems-item :
    {h h' : Store} (p : ℕ) → SameItems h h' → is_item h p ≡ true → is_item h' p ≡ true
SameItems-item p s v = subst (λ l. valid l p ≡ true) (sym s.live) v

-- The texts that `p` owns were given back, and no other.
pub record Texts (p : ℕ) (h h' : Store) : Type 0 where
  pub same : SameItems h h'
  pub others : (a : ℕ) → a ≢ p → Kept h h' a
  pub values : h'.values_freed p ≡ h.values_freed p + owned_values h p
  pub names : h'.names_freed p ≡ h.names_freed p + owned_names h p

module _ (p : ℕ) (h : Store) where
  -- The state that `free_texts` leaves
  abbrev without_texts : Bool → Bool → Store
  without_texts v s =
      let h1 =
        if v
        then record h {
          memory = cjson_dealloc h.memory;
          values_freed = update h.values_freed p (h.values_freed p + 1);
          valuestring = update h.valuestring p none;
        }
        else h in
      if s
      then record h1 {
        memory = cjson_dealloc h1.memory;
        names_freed = update h1.names_freed p (h1.names_freed p + 1);
        string = update h1.string p none;
      }
      else h1

  without_texts-Kept : (v s : Bool) (a : ℕ) → a ≢ p → Kept h (without_texts v s) a
  without_texts-Kept false false a n = Kept-refl h a
  without_texts-Kept false true a n = record {
    live = refl;
    values = refl;
    names = rw (unequal a p n) refl;
    valuestring = refl;
    string = rw (unequal a p n) refl;
  }
  without_texts-Kept true false a n = record {
    live = refl;
    values = rw (unequal a p n) refl;
    names = refl;
    valuestring = rw (unequal a p n) refl;
    string = refl;
  }
  without_texts-Kept true true a n = record {
    live = refl;
    values = rw (unequal a p n) refl;
    names = rw (unequal a p n) refl;
    valuestring = rw (unequal a p n) refl;
    string = rw (unequal a p n) refl;
  }

  without_texts-same : (v s : Bool) → SameItems h (without_texts v s)
  without_texts-same false false = record {
    live = refl;
    next = refl;
    prev = refl;
    child = refl;
    type_ = refl;
  }
  without_texts-same false true = record {
    live = refl;
    next = refl;
    prev = refl;
    child = refl;
    type_ = refl;
  }
  without_texts-same true false = record {
    live = refl;
    next = refl;
    prev = refl;
    child = refl;
    type_ = refl;
  }
  without_texts-same true true = record {
    live = refl;
    next = refl;
    prev = refl;
    child = refl;
    type_ = refl;
  }

  without_texts-counts :
      (v s : Bool)
      → ((without_texts v s).values_freed p ≡ h.values_freed p + (if v then 1 else 0))
        × ((without_texts v s).names_freed p ≡ h.names_freed p + (if s then 1 else 0))
  without_texts-counts false false = (omega arith, omega arith)
  without_texts-counts false true = (omega arith, rw (equal p) refl)
  without_texts-counts true false = (rw (equal p) refl, omega arith)
  without_texts-counts true true = (rw (equal p) refl, rw (equal p) refl)

  without_texts-Texts :
      {v s : Bool}
      → not (is_reference (h.type_ p)) && is_some (h.valuestring p) ≡ v
      → not (is_string_is_const (h.type_ p)) && is_some (h.string p) ≡ s
      → Texts p h (without_texts v s)
  without_texts-Texts {v} {s} e f = record {
    same = without_texts-same v s;
    others = without_texts-Kept v s;
    values = rw e (without_texts-counts v s).0;
    names = rw f (without_texts-counts v s).1;
  }

  pub free_texts-Texts :
      is_item h p ≡ true → Returns (λ r. Texts p h r.1) (free_texts (h.type_ p) p h)
  unfolding free_texts free_valuestring free_string set_valuestring set_string
  free_texts-Texts v =
      elim (Bool-cases (not (is_reference (h.type_ p)) && is_some (h.valuestring p))) [
        | inl a ↦ elim (Bool-cases (not (is_string_is_const (h.type_ p)) && is_some (h.string p))) [
          | inl b ↦ simp (load-ok, v, a, b) (returns (without_texts-Texts a b))
          | inr b ↦ simp (load-ok, v, a, b) (returns (without_texts-Texts a b))
        ]
        | inr a ↦ elim (Bool-cases (not (is_string_is_const (h.type_ p)) && is_some (h.string p))) [
          | inl b ↦ simp (load-ok, v, a, b) (returns (without_texts-Texts a b))
          | inr b ↦ simp (load-ok, v, a, b) (returns (without_texts-Texts a b))
        ]
      ]
