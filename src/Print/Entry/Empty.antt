-- ===== src/Print/Entry/Empty.antt =====
-- src/print.rs: the first `ensure` of a buffer that has no byte.
use rust_json_port_mortem.Base.{
  ℕ, ◌+◌, ◌*◌, ◌/◌, ◌<◌, ◌≡◌, Bool, true, false, Option, some, arith, fault, gt→leb, ge→ltb,
}
use rust_json_port_mortem.Model.{Bytes, ℤ, pos, node, Children, cjson_null}
use rust_json_port_mortem.Alloc.{Memory, Grant, cjson_alloc}
use rust_json_port_mortem.Parse.Number.{Libc}
use rust_json_port_mortem.Print.Buffer.{int_max, copy, grow, ensure, put}
use rust_json_port_mortem.Print.Number.{Doubles}
use rust_json_port_mortem.Print.Grammar.{base_type}
use rust_json_port_mortem.Print.Value.{print_value}
use rust_json_port_mortem.Print.Entry.{new_buffer, print_item, cjson_print_buffered}

module _ (grant : Grant) (fresh : ℕ → ℕ → ℕ) where
  -- Without `realloc`, the byte at the offset is copied also where there is none.
  ensure-fault :
      (count : ℕ) (bytes : ℕ → ℕ) (format : Bool) (m : Memory)
      → count < 1000
      → grant m.requests ((count + 1) * 2) ≡ true
      → ensure grant false fresh count
          (new_buffer (record { size = 0; bytes = bytes }) 0 false format m)
        ≡ fault
  unfolding ensure grow copy cjson_alloc
  ensure-fault count bytes format m small e =
      let needed : count + 0 + 1 ≡ count + 1 = omega arith in
      simp (
        ge→ltb int_max count (omega arith),
        needed,
        gt→leb (count + 1) 0 (omega arith),
        ge→ltb (int_max / 2) (count + 1) (omega arith),
        e,
      )

  module _ {D : Type 0} (doubles : Doubles D) (libc : Libc D) where
    -- `cjson_print_buffered` with a size of 0 for the first block and hooks that have no
    -- `reallocate` reads a byte that the block does not have, if the hooks give the two blocks that it
    -- asks for: here for a null value.
    pub cjson_print_buffered-fault :
        (t : ℕ) (v s : Option Bytes) (i : ℤ) (d : D) (c : Children D) (fmt : Bool) (m : Memory)
        → base_type t ≡ cjson_null
        → grant m.requests 0 ≡ true
        → grant (m.requests + 1) 12 ≡ true
        → cjson_print_buffered doubles libc grant false fresh
            (some (node t v i d s c))
            (pos 0)
            fmt
            m
          ≡ fault
    unfolding cjson_print_buffered print_item print_value put cjson_alloc
    cjson_print_buffered-fault t v s i d c fmt m base first second =
        let m1 : Memory = record m { requests = m.requests + 1; allocs = m.allocs + 1 } in
        simp (first, base, ensure-fault 5 (fresh m.requests) fmt m1 (omega arith) second)
