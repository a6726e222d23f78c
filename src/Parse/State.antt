-- ===== src/Parse/State.antt =====
-- src/model.rs: `ParseBuffer`, and the reads that src/parse.rs makes through it.
use rust_json_port_mortem.Base.{
  ℕ, ◌+◌, ◌<◌, ◌≡◌, Bool, arith, Outcome, ok, fault, ltb, leb, if◌then◌else◌,
}
use rust_json_port_mortem.Alloc.{Memory}

-- The fields `content` and `length` of a `ParseBuffer`, which no function changes: the bytes from the
-- address `content` on, of which `length` may be read.
pub record Input : Type 0 where
  pub content : ℕ → ℕ
  pub length : ℕ

-- The fields that change, and the memory behind the buffer's hooks.
pub record ParseBuffer : Type 0 where
  pub offset : ℕ
  pub depth : ℕ
  pub memory : Memory

module _ (i : Input) where
  -- `*p` for `p = content + o`
  unfoldable pub read : ℕ → Outcome ℕ
  read o = if ltb o i.length then ok (i.content o) else fault

  -- `can_read(buffer, size)` at the offset `o`
  abbrev pub can_read : ℕ → ℕ → Bool
  can_read o size = leb (o + size) i.length

  -- `can_access_at_index(buffer, index)` at the offset `o`
  abbrev pub can_access_at_index : ℕ → ℕ → Bool
  can_access_at_index o index = ltb (o + index) i.length

  pub read-ok : (o : ℕ) → o < i.length → read o ≡ ok (i.content o)
  unfolding read
  read-ok o h = ground arith
