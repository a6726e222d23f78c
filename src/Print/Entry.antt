-- ===== src/Print/Entry.antt =====
-- src/print.rs: the calls of the printer that a program makes.
pub mod Item
pub mod Result
pub mod Empty
use rust_json_port_mortem.Base.{
  ℕ, ◌+◌, Bool, true, false, not, Option, none, some, List, [], ◌∷◌, Outcome, ok, fault, ◌>>=◌, ltb,
  if◌then◌else◌, match_option,
}
use rust_json_port_mortem.Model.{ℤ, pos, negsuc, CJson}
use rust_json_port_mortem.Alloc.{Memory, Grant, cjson_alloc, cjson_dealloc}
use rust_json_port_mortem.Parse.Number.{Libc}
use rust_json_port_mortem.Print.Buffer.{Block, PrintBuffer, copy, store, resized, update_offset}
use rust_json_port_mortem.Print.Number.{Doubles}
use rust_json_port_mortem.Print.Value.{print_value}

abbrev pub default_buffer_size : ℕ
default_buffer_size = 256

-- `cjson_min`
unfoldable pub cjson_min : ℕ → ℕ → ℕ
cjson_min a b = if ltb a b then a else b

-- The buffer that the calls begin with.
abbrev pub new_buffer : Block → ℕ → Bool → Bool → Memory → PrintBuffer
new_buffer p length noalloc format m = record {
  buffer = some p;
  length = length;
  offset = 0;
  depth = 0;
  noalloc = noalloc;
  format = format;
  memory = m;
}

-- The hook `deallocate` for the buffer's block, if it has one
abbrev pub free_buffer : PrintBuffer → Memory
free_buffer b = match_option b.buffer b.memory (λ _. cjson_dealloc b.memory)

module _ (grant : Grant) (reallocate : Bool) (fresh : ℕ → ℕ → ℕ) where
  -- `print_impl` behind `update_offset`: a block of the text's size. The buffer is not null there.
  unfoldable pub fit : PrintBuffer → Outcome (Option Block × Memory)
  fit b = match_option b.buffer fault λ p.
      let (granted, m) = cjson_alloc grant (b.offset + 1) b.memory in
      if not granted
      then ok (none, cjson_dealloc m)
      else if reallocate
      then ok (some (resized fresh (b.offset + 1) p b.memory), cjson_dealloc m)
      else (copy (cjson_min b.length (b.offset + 1)) p
            (record { size = b.offset + 1; bytes = fresh b.memory.requests })
          >>= store b.offset 0
          >>= λ printed. ok (some printed, cjson_dealloc m))

module _ {D : Type 0} (doubles : Doubles D) (libc : Libc D) where
  module _ (grant : Grant) (reallocate : Bool) (fresh : ℕ → ℕ → ℕ) where
    -- `print_value` of a pointer
    unfoldable pub print_item : Option (CJson D) → PrintBuffer → Outcome (Bool × PrintBuffer)
    print_item item b =
        match_option item (ok (false, b)) λ x. print_value doubles libc grant reallocate fresh x b

    -- `print_impl`
    unfoldable pub print_impl : Option (CJson D) → Bool → Memory → Outcome (Option Block × Memory)
    print_impl item format m =
        let (granted, m1) = cjson_alloc grant default_buffer_size m in
        if not granted
        then ok (none, m1)
        else (print_item item (
              new_buffer (record { size = default_buffer_size; bytes = fresh m.requests })
                default_buffer_size false format m1)
            >>= λ r.
                if r.0
                then (update_offset r.1 >>= fit grant reallocate fresh)
                else ok (none, free_buffer r.1))

    -- `cjson_print` and `cjson_print_unformatted`
    unfoldable pub cjson_print : Option (CJson D) → Memory → Outcome (Option Block × Memory)
    cjson_print item = print_impl item true

    unfoldable pub cjson_print_unformatted :
        Option (CJson D) → Memory → Outcome (Option Block × Memory)
    cjson_print_unformatted item = print_impl item false

    -- `cjson_print_buffered`
    unfoldable pub cjson_print_buffered :
        Option (CJson D) → ℤ → Bool → Memory → Outcome (Option Block × Memory)
    cjson_print_buffered item (negsuc n) fmt m = ok (none, m)
    cjson_print_buffered item (pos prebuffer) fmt m =
        let (granted, m1) = cjson_alloc grant prebuffer m in
        if not granted
        then ok (none, m1)
        else (print_item item (
              new_buffer (record { size = prebuffer; bytes = fresh m.requests }) prebuffer false fmt
                m1)
            >>= λ r. if r.0 then ok (r.1.buffer, r.1.memory) else ok (none, free_buffer r.1))

    -- `cjson_print_preallocated`, with the caller's block after it
    unfoldable pub cjson_print_preallocated :
        Option (CJson D) → Option Block → ℤ → Bool → Memory → Outcome (Bool × PrintBuffer)
    cjson_print_preallocated item none length format m = ok (
      false,
      record (new_buffer (record { size = 0; bytes = λ k. 0 }) 0 true format m) { buffer = none },
    )
    cjson_print_preallocated item (some p) (negsuc n) format m =
        ok (false, new_buffer p 0 true format m)
    cjson_print_preallocated item (some p) (pos length) format m =
        print_item item (new_buffer p length true format m)
