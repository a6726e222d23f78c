-- ===== src/Utils/Find/Located.antt =====
-- src/utils.rs: the pointer that is found leads to the target.
use rust_json_port_mortem.Base.{
  subst, ℕ, zero, suc, ◌+◌, ◌/◌, ◌%◌, ◌≤◌, ◌^◌, ◌≡◌, ◌∙◌, refl, sym, Bool, true, false, Option,
  none, some, [], ◌∷◌, ◌++◌, arith, Returns, returns, Returns-mono, bit_and, length, length-append,
  Bool-cases, inl, inr, ltb, le→leb,
}
use rust_json_port_mortem.Model.{Bytes, CJson, node, Children, nil, cons, cjson_array, cjson_object}
use rust_json_port_mortem.Alloc.{Memory, Grant, Keeps, cjson_alloc, cjson_dealloc}
use rust_json_port_mortem.Manip.Lookup.{type_, string, child, size_loop}
use rust_json_port_mortem.Manip.Lookup.Found.{FirstNamed, here, there, Unnamed, HasNames}
use rust_json_port_mortem.Print.Number.{digits, to_string}
use rust_json_port_mortem.Utils.Pointer.{pointer_encoded_length, encode_string_as_pointer}
use rust_json_port_mortem.Utils.Pointer.Encode.{length-encode_string_as_pointer}
use rust_json_port_mortem.Utils.Pointer.Resolve.Walk.{
  Walk, into_array, into_object, IsItemAt, front, further,
}
use rust_json_port_mortem.Utils.Find.{full_pointer, extend}

length-digits : (fuel n : ℕ) → length (digits fuel n) ≤ fuel
unfolding digits
length-digits zero n = omega arith
length-digits (suc fuel) n = elim (Bool-cases (ltb n 10)) [
  | inl e ↦ rw e (omega arith)
  | inr e ↦ rw e (
      omega (
        arith,
        length-digits fuel (n / 10),
        length-append (digits fuel (n / 10)) ((b'0' + n % 10) ∷ []),
      ))
]

length-to_string : (n : ℕ) → length (to_string n) ≤ 20
unfolding to_string
length-to_string = length-digits 20

module _ {D : Type 0} where
  -- No two items of the list have the same name.
  abbrev pub HaveDistinctNames : Children D → Type 0
  HaveDistinctNames nil = Unit
  HaveDistinctNames (cons x next) =
      ((s : Bytes) → string x ≡ some s → Unnamed s next) × HaveDistinctNames next

  -- An item can be reached by pointers: an array has fewer than 2 ^ 64 members, those of an object
  -- have names of their own, and any other item has none.
  pub data Contains (t : ℕ) : Children D → Type 0 where
    members : {c : Children D} → bit_and t 0xFF ≡ cjson_array → size_loop c ≤ 2 ^ 64 → Contains t c
    named :
        {c : Children D}
        → bit_and t 0xFF ≡ cjson_object
        → HasNames c
        → HaveDistinctNames c
        → Contains t c
    nothing : {c : Children D} → c ≡ nil → Contains t c

-- Every item of the tree can be reached by a pointer.
unfoldable mutual
  pub IsAddressable : {D : Type 0} → CJson D → Type 0
  IsAddressable (node t v i d s c) = Contains t c × AreAddressable c

  pub AreAddressable : {D : Type 0} → Children D → Type 0
  AreAddressable nil = Unit
  AreAddressable (cons x next) = IsAddressable x × AreAddressable next

module _ {D : Type 0} (is_target : CJson D → Bool) where
  -- No item of the tree is the target.
  unfoldable mutual
    pub IsAway : CJson D → Type 0
    IsAway (node t v i d s c) = (is_target (node t v i d s c) ≡ false) × AreAway c

    pub AreAway : Children D → Type 0
    AreAway nil = Unit
    AreAway (cons x next) = IsAway x × AreAway next

  -- The result of a search from an item: a pointer that leads to the target, in one block, or null and
  -- no block, with the target nowhere in the tree.
  pub data Located (x : CJson D) (m : Memory) (r : Option Bytes × Memory) : Type 0 where
    located :
        {p : Bytes} {y : CJson D}
        → r.0 ≡ some p
        → Walk x p y
        → is_target y ≡ true
        → Keeps 1 m r.1
        → Located x m r
    away : r.0 ≡ none → IsAway x → Keeps 0 m r.1 → Located x m r

  -- The same for the members `c` of `x`, which are those from an index on.
  pub data Below (x : CJson D) (c : Children D) (m : Memory) (r : Option Bytes × Memory)
      : Type 0 where
    below :
        {p : Bytes} {y : CJson D}
        → r.0 ≡ some p
        → Walk x p y
        → is_target y ≡ true
        → Keeps 1 m r.1
        → Below x c m r
    not_below : r.0 ≡ none → AreAway c → Keeps 0 m r.1 → Below x c m r

-- `next` is what is left of the members of `x` from this index on.
pub data Rest {D : Type 0} (x : CJson D) (k : ℕ) (next : Children D) : Type 0 where
  of_array :
      bit_and (type_ x) 0xFF ≡ cjson_array
      → k + size_loop next ≤ 2 ^ 64
      → ((j : ℕ) (y : CJson D) → IsItemAt y j next → IsItemAt y (k + j) (child x))
      → Rest x k next
  of_object :
      bit_and (type_ x) 0xFF ≡ cjson_object
      → HasNames (child x)
      → HasNames next
      → HaveDistinctNames next
      → ((s : Bytes) (y : CJson D) → FirstNamed s y next → FirstNamed s y (child x))
      → Rest x k next
  of_leaf : next ≡ nil → Rest x k next

zero_add : (j : ℕ) → 0 + j ≡ j
zero_add j = omega arith

add_zero : (k : ℕ) → k + 0 ≡ k
add_zero k = omega arith

add_suc : (k j : ℕ) → k + 1 + j ≡ k + suc j
add_suc k j = omega arith

module _ {D : Type 0} where
  pub Rest-all :
      (t : ℕ) (x : CJson D)
      → bit_and t 0xFF ≡ bit_and (type_ x) 0xFF
      → Contains t (child x)
      → Rest x 0 (child x)
  Rest-all t x e (members a l) =
      of_array (sym e ∙ a) (omega (arith, l)) (λ j y h. rw (zero_add j) h)
  Rest-all t x e (named a h d) = of_object (sym e ∙ a) h h d (λ s y f. f)
  Rest-all t x e (nothing n) = of_leaf n

  other_name : (s : Bytes) (y : CJson D) (c : Children D) → FirstNamed s y c → Unnamed s c → ⊥
  other_name s y _ (here e) u = u.0 e
  other_name s y _ (there _ f) u = other_name s y _ f u.1

  pub Rest-next :
      (x cur : CJson D) (k : ℕ) (next : Children D) → Rest x k (cons cur next) → Rest x (k + 1) next
  unfolding size_loop
  Rest-next x cur k next (of_array a l f) =
      of_array a (omega (arith, l)) (λ j y h. rw (add_suc k j) (f (suc j) y (further h)))
  Rest-next x cur k next (of_object a h (n, h') d f) =
      of_object a h h' d.1 (λ s y w. f s y (there (λ e. other_name s y next w (d.0 s e)) w))
  Rest-next x cur k next (of_leaf e) = absurd (cc e)

module _ (grant : Grant) (grants : (n size : ℕ) → grant n size ≡ true) where
  full_pointer-Keeps :
      (size : ℕ) (text : Bytes) (m m1 : Memory)
      → length text + 1 ≤ size
      → Keeps 1 m m1
      → Returns (λ r. (r.0 ≡ some text) × Keeps 1 m r.1) (full_pointer grant size text m1)
  unfolding full_pointer cjson_alloc cjson_dealloc
  full_pointer-Keeps size text m m1 h k =
      rw (grants m1.requests size) (rw (le→leb _ size h) (returns (refl, omega (arith, k))))

  -- The path of a child is made the path of the item that it belongs to.
  pub extend-Below :
      {D : Type 0} (is_target : CJson D → Bool) (x cur y : CJson D) (k : ℕ) (next : Children D)
      (p : Bytes) (m m1 : Memory)
      → Rest x k (cons cur next)
      → Walk cur p y
      → is_target y ≡ true
      → Keeps 1 m m1
      → Returns (Below is_target x (cons cur next) m) (extend grant (type_ x) k cur p m1)
  unfolding extend size_loop
  extend-Below is_target x cur y k next p m m1 (of_array a l f) w e keeps =
      let at_zero = f 0 cur front in
      simp a (
        Returns-mono
          (full_pointer-Keeps (length p + 20 + 2) (b'/' ∷ to_string k ++ p) m m1
            (omega (arith, length-to_string k, length-append (to_string k) p)) keeps)
          (λ r q.
            below q.0
              (into_array k a (omega (arith, l))
                (subst (λ n. IsItemAt cur n (child x)) (add_zero k) at_zero) w)
              e q.1))
  extend-Below is_target x cur y k next p m m1 (of_object a h ((s, n, nul), h') d f) w e keeps =
      let code = encode_string_as_pointer s in
      simp (a, n)
        (Returns-mono
          (full_pointer-Keeps (length p + pointer_encoded_length s + 2) (b'/' ∷ code ++ p) m m1
            (omega (arith, length-encode_string_as_pointer s, length-append code p)) keeps)
          (λ r q. below q.0 (into_object s a nul h (f s cur (here n)) w) e q.1))
  extend-Below is_target x cur y k next p m m1 (of_leaf n) w e keeps = absurd (cc n)
