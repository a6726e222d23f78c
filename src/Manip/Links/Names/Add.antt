-- ===== src/Manip/Links/Names/Add.antt =====
-- src/manip.rs: `add_item_to_object` appends a member with its name.
use rust_json_port_mortem.Base.{
  ℕ, ◌+◌, ◌≡◌, ◌≢◌, refl, Bool, true, false, not, ◌&&◌, ◌||◌, some, subst, sym, ap, ◌∙◌, arith, ◌-◌,
  ◌/◌, ◌%◌, bit_and, bit_or, List, [], ◌∷◌, ◌++◌, length, Returns, returns, Returns-mono,
  Bool-cases, inl, inr,
}
use rust_json_port_mortem.Model.{Bytes}
use rust_json_port_mortem.Alloc.{Memory, Grant, cjson_alloc, cjson_dealloc}
use rust_json_port_mortem.Manip.Delete.{is_string_is_const, is_some}
use rust_json_port_mortem.Manip.Duplicate.{cjson_strdup}
use rust_json_port_mortem.Manip.Links.{
  Store, null, is_item, update, ◌>>◌, free_string, set_type, set_string,
}
use rust_json_port_mortem.Manip.Links.Chain.{NotIn, Items}
use rust_json_port_mortem.Manip.Links.Steps.{
  not_null, equal, unequal, load-ok, set_string-ok, set_type-ok,
}
use rust_json_port_mortem.Manip.Links.Add.{add_item_to_array-Items}
use rust_json_port_mortem.Manip.Links.Delete.Texts.{owned_names}
use rust_json_port_mortem.Base.Bits.{and_tenth, or_tenth}
use rust_json_port_mortem.Manip.Links.Operations.{add_item_to_array}
use rust_json_port_mortem.Manip.Links.Names.{
  duplicate_name, free_name, new_type, add_item_to_object,
}

-- The type of the item tells whether the name is constant, and is the same but for that bit.
pub record HasKey (constant_key : Bool) (t t' : ℕ) : Type 0 where
  pub constant : is_string_is_const t' ≡ constant_key
  pub below : t' % 512 ≡ t % 512
  pub above : t' / 1024 ≡ t / 1024

new_type-HasKey : (constant_key : Bool) (t : ℕ) → HasKey constant_key t (new_type constant_key t)
unfolding new_type
new_type-HasKey true t = record {
  constant = ground (arith, and_tenth (bit_or t 512), or_tenth t);
  below = omega (arith, or_tenth t);
  above = omega (arith, or_tenth t);
}
new_type-HasKey false t = record {
  constant = ground (arith, and_tenth (t - bit_and t 512), and_tenth t);
  below = omega (arith, and_tenth t);
  above = omega (arith, and_tenth t);
}

-- The name that the item owned was given back once, and no other.
abbrev pub FreedName : Store → ℕ → (ℕ → ℕ) → Type 0
FreedName h item freed =
    (freed item ≡ h.names_freed item + owned_names h item)
    × ((a : ℕ) → a ≢ item → freed a ≡ h.names_freed a)

-- The member was added with its name, and the name that it owned was given back, once; or the allocator
-- refused the copy of the name, and only that is counted.
pub data Named (grant : Grant) (h : Store) (object item : ℕ) (name : Bytes) (constant_key : Bool)
    (xs : List ℕ) (r : Bool × Store) : Type 0 where
  added :
      r.0 ≡ true
      → Items r.1 object (xs ++ item ∷ [])
      → r.1.string ≡ update h.string item (some name)
      → HasKey constant_key (h.type_ item) (r.1.type_ item)
      → ((a : ℕ) → a ≢ item → r.1.type_ a ≡ h.type_ a)
      → FreedName h item r.1.names_freed
      → r.1.values_freed ≡ h.values_freed
      → constant_key || grant h.memory.requests (length name + 1) ≡ true
      → Named grant h object item name constant_key xs r
  refused :
      r.0 ≡ false
      → constant_key || grant h.memory.requests (length name + 1) ≡ false
      → r.1 ≡ record h { memory = r.1.memory }
      → r.1.memory.allocs ≡ h.memory.allocs
      → Named grant h object item name constant_key xs r

module _ (grant : Grant) (h : Store) (object item : ℕ) (name : Bytes) (xs : List ℕ)
    (constant_key : Bool) where
  module _ (i : Items h object xs) (v : is_item h item ≡ true) (end : h.next item ≡ null)
      (n : NotIn item xs) (other : object ≢ item) where
    -- The item gets its new name and type, and is appended.
    append_member :
        (m : Memory) (freed : ℕ → ℕ)
        → FreedName h item freed
        → constant_key || grant h.memory.requests (length name + 1) ≡ true
        → Returns (Named grant h object item name constant_key xs) (
            (set_string item (some name)
                >> set_type item (new_type constant_key (h.type_ item))
                >> add_item_to_array object item)
              (record h { memory = m; names_freed = freed }))
    append_member m freed once granted =
        let h1 : Store = record h {
          memory = m;
          names_freed = freed;
          string = update h.string item (some name);
          type_ = update h.type_ item (new_type constant_key (h.type_ item));
        } in
        let at_item : h1.type_ item ≡ new_type constant_key (h.type_ item) = rw (equal item) refl in
        let held : Items h1 object xs = record {
          owner = i.owner;
          items = i.items;
          distinct = i.distinct;
          first = i.first;
          nexts = i.nexts;
          prevs = i.prevs;
        } in
        simp (set_string-ok, set_type-ok, v)
          (Returns-mono (add_item_to_array-Items h1 object item xs held v end n other) (λ r q.
            added q.0 q.1 q.2.string
              (subst (λ t. HasKey constant_key (h.type_ item) t)
                (sym (ap (λ f. f item) q.2.type_ ∙ at_item))
                (new_type-HasKey constant_key (h.type_ item)))
              (λ a n. ap (λ f. f a) q.2.type_ ∙ rw (unequal a item n) refl)
              (subst (FreedName h item) (sym q.2.names_freed) once) q.2.values_freed granted))

    free_and_append :
        (m : Memory)
        → constant_key || grant h.memory.requests (length name + 1) ≡ true
        → Returns (Named grant h object item name constant_key xs) (
            (free_name (h.type_ item) item
                >> set_string item (some name)
                >> set_type item (new_type constant_key (h.type_ item))
                >> add_item_to_array object item)
              (record h { memory = m }))
    unfolding free_name free_string
    free_and_append m granted =
        elim (Bool-cases (not (is_string_is_const (h.type_ item)) && is_some (h.string item))) [
          | inl b ↦
              simp (load-ok, v, b)
                (append_member (cjson_dealloc m)
                  (update h.names_freed item (h.names_freed item + 1))
                  (rw (b, equal item) refl, λ a n. rw (unequal a item n) refl) granted)
          | inr b ↦
              simp (load-ok, v, b)
                (append_member m h.names_freed (rw b (omega arith), λ a n. refl) granted)
        ]

-- To an object that holds the members `xs`, an item that is none of these and leads to no other is added
-- behind them with its name, without an access to what is no item, just where the name is constant or the
-- allocator grants its copy: the bit of its type for a constant name is set or cleared, and a name that it
-- owned is given back once. Where the allocator refuses, no item is changed and the call returns false.
pub add_item_to_object-Named :
    (grant : Grant) (h : Store) (object item : ℕ) (name : Bytes) (xs : List ℕ) (constant_key : Bool)
    → Items h object xs
    → is_item h item ≡ true
    → h.next item ≡ null
    → NotIn item xs
    → object ≢ item
    → Returns
        (Named grant h object item name constant_key xs)
        (add_item_to_object grant object (some name) item constant_key h)
unfolding add_item_to_object duplicate_name cjson_strdup cjson_alloc
add_item_to_object-Named grant h object item name xs true i v end n other =
    simp (not_null h object i.owner, not_null h item v, unequal object item other, load-ok, v)
      (free_and_append grant h object item name xs true i v end n other h.memory refl)
add_item_to_object-Named grant h object item name xs false i v end n other =
    elim (Bool-cases (grant h.memory.requests (length name + 1))) [
      | inl g ↦
          simp
            (not_null h object i.owner, not_null h item v, unequal object item other, load-ok, v, g)
            (free_and_append grant h object item name xs false i v end n other
              (record h.memory { requests = h.memory.requests + 1; allocs = h.memory.allocs + 1 })
              g)
      | inr g ↦
          simp
            (not_null h object i.owner, not_null h item v, unequal object item other, load-ok, v, g)
            (returns (refused refl g refl refl))
    ]
