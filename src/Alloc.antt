-- ===== src/Alloc.antt =====
-- src/alloc.rs: the calls of the allocation hooks, counted.
pub mod Hooks
use rust_json_port_mortem.Base.{ℕ, ◌+◌, ◌≡◌, Bool, true, false, if◌then◌else◌}

-- What the hooks have done so far: the calls of `allocate`, those that gave a block, and the blocks
-- that `deallocate` has taken back.
pub record Memory : Type 0 where
  pub requests : ℕ
  pub allocs : ℕ
  pub frees : ℕ

-- The `allocate` hook is foreign code: whether its call of this number, for a block of this size,
-- gives a block.
abbrev pub Grant : Type 0
Grant = ℕ → ℕ → Bool

-- `cjson_alloc`: false is the null pointer.
unfoldable pub cjson_alloc : Grant → ℕ → Memory → Bool × Memory
cjson_alloc grant size m =
    if grant m.requests size
    then (true, record m { requests = m.requests + 1; allocs = m.allocs + 1 })
    else (false, record m { requests = m.requests + 1 })

-- `cjson_dealloc` of a pointer that is not null
unfoldable pub cjson_dealloc : Memory → Memory
cjson_dealloc m = record m { frees = m.frees + 1 }

-- Between the two states the code has kept `n` more blocks than it has given back.
abbrev pub Keeps : ℕ → Memory → Memory → Type 0
Keeps n m m' = m'.allocs + m.frees ≡ m'.frees + m.allocs + n
