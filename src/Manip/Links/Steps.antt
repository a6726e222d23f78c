-- ===== src/Manip/Links/Steps.antt =====
-- src/manip.rs: rules for commands that read and write the fields of items.
use rust_json_port_mortem.Model.{Bytes}
use rust_json_port_mortem.Base.{Option, ℕ, ◌≡◌, ◌≢◌, refl, true, false, arith, ok, ◌==◌}
use rust_json_port_mortem.Alloc.{cjson_dealloc}
use rust_json_port_mortem.Manip.Links.{
  Store, null, is_item, update, load, set_string, set_type, set_next, set_prev, set_child,
  free_item,
}

pub not_null : (h : Store) (p : ℕ) → is_item h p ≡ true → (p == null) ≡ false
not_null h p v = ground (arith, v)

pub unequal : (a b : ℕ) → a ≢ b → (a == b) ≡ false
unequal a b n = ground (arith, n)

pub equal : (a : ℕ) → (a == a) ≡ true
equal a = ground arith

-- What a command at an item reads, or the state that it leaves.
module _ (h : Store) (p : ℕ) (v : is_item h p ≡ true) where
  pub load-ok : {A : Type 0} (field : Store → ℕ → A) → load field p h ≡ ok (field h p, h)
  unfolding load
  load-ok field = rw v refl

  pub set_next-ok : (q : ℕ) → set_next p q h ≡ ok (tt, record h { next = update h.next p q })
  unfolding set_next
  set_next-ok q = rw v refl

  pub set_prev-ok : (q : ℕ) → set_prev p q h ≡ ok (tt, record h { prev = update h.prev p q })
  unfolding set_prev
  set_prev-ok q = rw v refl

  pub set_child-ok : (q : ℕ) → set_child p q h ≡ ok (tt, record h { child = update h.child p q })
  unfolding set_child
  set_child-ok q = rw v refl

  pub free_item-ok :
      free_item p h
      ≡ ok (tt, record h { live = update h.live p false; memory = cjson_dealloc h.memory })
  unfolding free_item
  free_item-ok = rw v refl

  pub set_string-ok :
      (s : Option Bytes) → set_string p s h ≡ ok (tt, record h { string = update h.string p s })
  unfolding set_string
  set_string-ok s = rw v refl

  pub set_type-ok : (t : ℕ) → set_type p t h ≡ ok (tt, record h { type_ = update h.type_ p t })
  unfolding set_type
  set_type-ok t = rw v refl
