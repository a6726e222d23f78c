-- ===== src/Alloc/Hooks/Sound.antt =====
-- src/alloc.rs: what `cjson_init_hooks` leaves in the global hooks.
use rust_json_port_mortem.Base.{none, some, arith, Option}
use rust_json_port_mortem.Alloc.Hooks.{
  Allocate, malloc, Deallocate, free, CJsonHooks, AreSound, cjson_init_hooks,
}

given_sound :
    (a : Option Allocate) (d : Option Deallocate)
    → AreSound (cjson_init_hooks (some (record { malloc_fn = a; free_fn = d })))
unfolding cjson_init_hooks
given_sound none none = ground arith
given_sound none (some free) = ground arith
given_sound none (some (Deallocate.custom n)) = ground arith
given_sound (some malloc) none = ground arith
given_sound (some malloc) (some free) = ground arith
given_sound (some malloc) (some (Deallocate.custom n)) = ground arith
given_sound (some (Allocate.custom m)) none = ground arith
given_sound (some (Allocate.custom m)) (some free) = ground arith
given_sound (some (Allocate.custom m)) (some (Deallocate.custom n)) = ground arith

-- Whatever hooks are given, null included, the global hooks have an allocator and a deallocator
-- afterwards, and `realloc` exactly where both are those of libc.
pub cjson_init_hooks-AreSound : (h : Option CJsonHooks) → AreSound (cjson_init_hooks h)
unfolding cjson_init_hooks
cjson_init_hooks-AreSound none = ground arith
cjson_init_hooks-AreSound (some given) = given_sound given.malloc_fn given.free_fn
