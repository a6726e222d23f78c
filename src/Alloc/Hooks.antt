-- ===== src/Alloc/Hooks.antt =====
-- src/alloc.rs: `InternalHooks` and `cjson_init_hooks`.
pub mod Sound
use rust_json_port_mortem.Base.{
  ℕ, ◌≡◌, ◌≢◌, ◌↔◌, Bool, true, false, ◌&&◌, Option, none, some, if◌then◌else◌,
}

-- The function that a hook points to: one of libc's, or one of the caller's, by its address.
pub data Allocate : Type 0 where
  malloc : Allocate
  custom : ℕ → Allocate

pub data Deallocate : Type 0 where
  free : Deallocate
  custom : ℕ → Deallocate

-- There is no public hook for `realloc`.
pub data Reallocate : Type 0 where
  realloc : Reallocate

pub record InternalHooks : Type 0 where
  pub allocate : Option Allocate
  pub deallocate : Option Deallocate
  pub reallocate : Option Reallocate

pub record CJsonHooks : Type 0 where
  pub malloc_fn : Option Allocate
  pub free_fn : Option Deallocate

pub is_default_allocator : Option Allocate → Bool
is_default_allocator (some Allocate.malloc) = true
is_default_allocator _ = false

pub is_default_deallocator : Option Deallocate → Bool
is_default_deallocator (some Deallocate.free) = true
is_default_deallocator _ = false

abbrev pub default_hooks : InternalHooks
default_hooks = record {
  allocate = some Allocate.malloc;
  deallocate = some Deallocate.free;
  reallocate = some realloc;
}

-- `cjson_init_hooks` returns the new value of the global `global_hooks`; `none` is the null pointer.
pub cjson_init_hooks : Option CJsonHooks → InternalHooks
unfolding is_default_allocator is_default_deallocator
cjson_init_hooks none = default_hooks
cjson_init_hooks (some given) =
    let allocate : Option Allocate = elim given.malloc_fn [
      | none ↦ some Allocate.malloc
      | some f ↦ some f
    ] in
    let deallocate : Option Deallocate = elim given.free_fn [
      | none ↦ some Deallocate.free
      | some f ↦ some f
    ] in
    let is_default = is_default_allocator allocate && is_default_deallocator deallocate in
    record {
      allocate = allocate;
      deallocate = deallocate;
      reallocate = if is_default then some realloc else none;
    }

-- What the rest of the program relies on: there is an allocator and a deallocator, and `realloc` is
-- used exactly with the allocator that it belongs to.
pub record AreSound (h : InternalHooks) : Type 0 where
  pub allocates : h.allocate ≢ none
  pub deallocates : h.deallocate ≢ none
  pub reallocates :
      (h.reallocate ≡ some realloc)
      ↔ ((h.allocate ≡ some Allocate.malloc) × (h.deallocate ≡ some Deallocate.free))
