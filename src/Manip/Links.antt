-- ===== src/Manip/Links.antt =====
-- src/manip.rs: items at addresses, and commands that read and write their fields.
pub mod Steps
pub mod Chain
pub mod Operations
pub mod Add
pub mod Index
pub mod Insert
pub mod Replace
pub mod Delete
pub mod Dispose
pub mod Names
pub mod Middle
pub mod Detach
use rust_json_port_mortem.Base.{
  ℕ, ◌+◌, Bool, true, false, not, ◌&&◌, ◌||◌, Option, ◌==◌, if◌then◌else◌, Outcome, ok, fault,
  out_of_fuel,
}
use rust_json_port_mortem.Model.{Bytes}
use rust_json_port_mortem.Alloc.{Memory, cjson_dealloc}

-- The fields of the items by their address, the addresses that hold an item, and the hooks' counts.
-- A text is told from the others by the item and the field that it hangs on: how often the block of each
-- was given back is counted by item.
pub record Store : Type 0 where
  pub live : ℕ → Bool
  pub next : ℕ → ℕ
  pub prev : ℕ → ℕ
  pub child : ℕ → ℕ
  pub type_ : ℕ → ℕ
  pub valuestring : ℕ → Option Bytes
  pub string : ℕ → Option Bytes
  pub memory : Memory
  pub values_freed : ℕ → ℕ
  pub names_freed : ℕ → ℕ

abbrev pub null : ℕ
null = 0

abbrev pub valid : (ℕ → Bool) → ℕ → Bool
valid live p = not (p == null) && live p

abbrev pub is_item : Store → ℕ → Bool
is_item h p = valid h.live p

abbrev pub update {ℓ} : {A : Type ℓ} → (ℕ → A) → ℕ → A → ℕ → A
update f p v q = if q == p then v else f q

abbrev pub Action : Type 0 → Type 0
Action A = Store → Outcome (A × Store)

abbrev pub pure : {A : Type 0} → A → Action A
pure a h = ok (a, h)

module _ {A B : Type 0} where
  abbrev pub and_then : Outcome (A × Store) → (A → Action B) → Outcome (B × Store)
  and_then (ok r) k = k r.0 r.1
  and_then fault k = fault
  and_then out_of_fuel k = out_of_fuel

  infixr 5 ◌>>=◌ ◌>>◌
  abbrev pub ◌>>=◌ : Action A → (A → Action B) → Action B
  m >>= k = λ h. and_then (m h) k

  abbrev pub ◌>>◌ : Action A → Action B → Action B
  m >> k = m >>= λ _. k

-- `(*p).next` and the other fields: a fault at null and where there is no item.
unfoldable pub load : {A : Type 0} → (Store → ℕ → A) → ℕ → Action A
load field p h = if is_item h p then ok (field h p, h) else fault

unfoldable pub set_next : ℕ → ℕ → Action (Unit {0})
set_next p q h = if is_item h p then ok (tt, record h { next = update h.next p q }) else fault

unfoldable pub set_prev : ℕ → ℕ → Action (Unit {0})
set_prev p q h = if is_item h p then ok (tt, record h { prev = update h.prev p q }) else fault

unfoldable pub set_child : ℕ → ℕ → Action (Unit {0})
set_child p q h = if is_item h p then ok (tt, record h { child = update h.child p q }) else fault

unfoldable pub set_type : ℕ → ℕ → Action (Unit {0})
set_type p t h = if is_item h p then ok (tt, record h { type_ = update h.type_ p t }) else fault

unfoldable pub set_valuestring : ℕ → Option Bytes → Action (Unit {0})
set_valuestring p s h =
    if is_item h p then ok (tt, record h { valuestring = update h.valuestring p s }) else fault

unfoldable pub set_string : ℕ → Option Bytes → Action (Unit {0})
set_string p s h = if is_item h p then ok (tt, record h { string = update h.string p s }) else fault

-- `cjson_dealloc` of the `valuestring` and of the `string` of an item, and of the item, whose address
-- then holds none.
unfoldable pub free_valuestring : ℕ → Action (Unit {0})
free_valuestring p h =
    if is_item h p
    then ok (
      tt,
      record h {
        memory = cjson_dealloc h.memory;
        values_freed = update h.values_freed p (h.values_freed p + 1);
      },
    )
    else fault

unfoldable pub free_string : ℕ → Action (Unit {0})
free_string p h =
    if is_item h p
    then ok (
      tt,
      record h {
        memory = cjson_dealloc h.memory;
        names_freed = update h.names_freed p (h.names_freed p + 1);
      },
    )
    else fault

unfoldable pub free_item : ℕ → Action (Unit {0})
free_item p h =
    if is_item h p
    then ok (tt, record h { live = update h.live p false; memory = cjson_dealloc h.memory })
    else fault

abbrev pub next_of : ℕ → Action ℕ
next_of = load (λ h. h.next)

abbrev pub prev_of : ℕ → Action ℕ
prev_of = load (λ h. h.prev)

abbrev pub child_of : ℕ → Action ℕ
child_of = load (λ h. h.child)

abbrev pub type_of : ℕ → Action ℕ
type_of = load (λ h. h.type_)

abbrev pub valuestring_of : ℕ → Action (Option Bytes)
valuestring_of = load (λ h. h.valuestring)

abbrev pub string_of : ℕ → Action (Option Bytes)
string_of = load (λ h. h.string)
