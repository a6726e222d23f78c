-- ===== src/Parse/Buffer.antt =====
-- src/parse.rs: `buffer_skip_whitespace`, `skip_utf8_bom` and `matches_at`.
pub mod Skip
use rust_json_port_mortem.Base.{
  ℕ, zero, suc, ◌+◌, ◌-◌, Bool, true, false, List, [], ◌∷◌, Outcome, ok, out_of_fuel, ◌>>=◌, leb,
  ◌==◌, if◌then◌else◌, length,
}
use rust_json_port_mortem.Parse.State.{Input, read, can_read, can_access_at_index}

module _ (i : Input) where
  -- `while can_access_at_index(buf, 0) && *buffer_at_offset(buf) <= 32 { buf.offset += 1; }`
  unfoldable pub skip_loop : ℕ → ℕ → Outcome ℕ
  skip_loop zero o = out_of_fuel
  skip_loop (suc f) o =
      let next = skip_loop f (o + 1) in
      let body = (do c ← read i o; if leb c 32 then next else ok o) in
      if can_access_at_index i o 0 then body else ok o

  -- `buffer_skip_whitespace`, from an offset to an offset
  unfoldable pub buffer_skip_whitespace : ℕ → Outcome ℕ
  buffer_skip_whitespace o =
      if can_access_at_index i o 0
      then (do o' ← skip_loop (i.length - o + 1) o; ok (if o' == i.length then o' - 1 else o'))
      else ok o

  -- The comparison of the slice at an offset with a text, byte by byte.
  unfoldable pub slice_eq : ℕ → List ℕ → Outcome Bool
  slice_eq o [] = ok true
  slice_eq o (b ∷ bs) =
      let rest = slice_eq (o + 1) bs in do c ← read i o; if c == b then rest else ok false

  unfoldable pub matches_at : ℕ → List ℕ → Outcome Bool
  matches_at o text = if can_read i o (length text) then slice_eq o text else ok false

  -- `skip_utf8_bom`, which moves the offset at the start of the buffer only
  unfoldable pub skip_utf8_bom : ℕ → Outcome ℕ
  skip_utf8_bom o =
      if can_access_at_index i o 4
      then (do b ← slice_eq o (0xEF ∷ 0xBB ∷ 0xBF ∷ []); ok (if b then o + 3 else o))
      else ok o
