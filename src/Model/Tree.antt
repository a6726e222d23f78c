-- ===== src/Model/Tree.antt =====
-- src/model.rs: `CJson`, seen as a tree. The list that `child` heads and `next` links is `Children`.
use Prim.Native.Nat.{max}
use rust_json_port_mortem.Base.{ℕ, ◌+◌, ◌||◌, List, [], ◌∷◌, Option, ◌==◌, if◌then◌else◌}

-- A nul-terminated text without its nul, as its bytes.
abbrev pub Bytes : Type 0
Bytes = List ℕ

-- `*p` and the text at `p.add(1)`
abbrev pub first : Bytes → ℕ
first [] = 0
first (c ∷ _) = c

abbrev pub behind : Bytes → Bytes
behind [] = []
behind (_ ∷ cs) = cs

-- `c_int`: `negsuc n` is -(n + 1).
pub data ℤ : Type 0 where
  pos : ℕ → ℤ
  negsuc : ℕ → ℤ

-- The fields `type_`, `valuestring`, `valueint`, `valuedouble`, `string` and `child`, in this order.
-- `none` is the null pointer, and `D` the type of doubles.
mutual
  pub data CJson (D : Type 0) : Type 0 where
    node : ℕ → Option Bytes → ℤ → D → Option Bytes → Children D → CJson D

  pub data Children (D : Type 0) : Type 0 where
    nil : Children D
    cons : CJson D → Children D → Children D

module _ {D : Type 0} where
  abbrev pub snoc : Children D → CJson D → Children D
  snoc nil x = cons x nil
  snoc (cons y ys) x = cons y (snoc ys x)

-- How deeply arrays and objects are nested in a tree.
unfoldable mutual
  pub nesting : {D : Type 0} → CJson D → ℕ
  nesting (node t v i d s c) = (if t == 32 || t == 64 then 1 else 0) + nesting_all c

  pub nesting_all : {D : Type 0} → Children D → ℕ
  nesting_all nil = 0
  nesting_all (cons x xs) = max (nesting x) (nesting_all xs)
