-- ===== src/Print/Buffer.antt =====
-- src/print.rs: the print buffer, `ensure` and `update_offset`.
pub mod Room
pub mod Grow
use rust_json_port_mortem.Base.{
  ℕ, zero, suc, ◌+◌, ◌*◌, ◌-◌, ◌^◌, ◌/◌, Bool, true, false, not, ◌&&◌, Option, none, some, List, [],
  ◌∷◌, Outcome, ok, fault, ◌>>=◌, ltb, leb, ◌==◌, if◌then◌else◌, match_option,
}
use rust_json_port_mortem.Model.{Bytes}
use rust_json_port_mortem.Alloc.{Memory, Grant, cjson_alloc, cjson_dealloc}

-- A block of memory.
pub record Block : Type 0 where
  pub size : ℕ
  pub bytes : ℕ → ℕ

-- `PrintBuffer`, with the memory behind its hooks in the place of the hooks
pub record PrintBuffer : Type 0 where
  pub buffer : Option Block
  pub length : ℕ
  pub offset : ℕ
  pub depth : ℕ
  pub noalloc : Bool
  pub format : Bool
  pub memory : Memory

abbrev pub int_max : ℕ
int_max = 2 ^ 31 - 1

-- `*(p + o) = c`
unfoldable pub store : ℕ → ℕ → Block → Outcome Block
store o c p =
    if ltb o p.size then ok (record p { bytes = λ k. if k == o then c else p.bytes k }) else fault

unfoldable pub store_all : ℕ → Bytes → Block → Outcome Block
store_all o [] p = ok p
store_all o (c ∷ cs) p = store o c p >>= store_all (o + 1) cs

-- The stores of these bytes, one behind the other, from an offset of the buffer on.
unfoldable pub write : ℕ → Bytes → PrintBuffer → Outcome PrintBuffer
write o cs b =
    match_option b.buffer fault λ p. (store_all o cs p >>= λ p'. ok (record b { buffer = some p' }))

-- `copy_nonoverlapping(from, to, n)`
unfoldable pub copy : ℕ → Block → Block → Outcome Block
copy n from to =
    if leb n from.size && leb n to.size
    then ok (record to { bytes = λ k. if ltb k n then from.bytes k else to.bytes k })
    else fault

-- The bytes from `o` on to the first nul, in a block with `left` bytes from there on.
unfoldable pub length_from : ℕ → ℕ → (ℕ → ℕ) → Outcome ℕ
length_from zero o bytes = fault
length_from (suc left) o bytes =
    let rest = length_from left (o + 1) bytes in
    if bytes o == 0 then ok 0 else (rest >>= λ n. ok (n + 1))

-- `update_offset`
unfoldable pub update_offset : PrintBuffer → Outcome PrintBuffer
update_offset b = match_option b.buffer (ok b) λ p.
    (length_from (p.size - b.offset) b.offset p.bytes >>= λ n.
    ok (record b { offset = b.offset + n }))

-- What `realloc` gives in the place of a block: its bytes as far as both reach.
unfoldable pub resized : (ℕ → ℕ → ℕ) → ℕ → Block → Memory → Block
resized fresh newsize p m = record {
  size = newsize;
  bytes = λ k. if ltb k p.size then p.bytes k else fresh m.requests k;
}

abbrev pub without_buffer : PrintBuffer → Memory → PrintBuffer
without_buffer b m = record b { buffer = none; length = 0; memory = cjson_dealloc m }

-- Whether `hooks.reallocate` is there, and what the block of a request holds at first.
module _ (grant : Grant) (reallocate : Bool) (fresh : ℕ → ℕ → ℕ) where
  -- The end of `ensure`: a larger block in the place of the buffer's.
  unfoldable pub grow : ℕ → Block → PrintBuffer → Outcome (Bool × PrintBuffer)
  grow newsize p b =
      let (granted, m) = cjson_alloc grant newsize b.memory in
      if not granted
      then ok (false, without_buffer b m)
      else if reallocate
      then ok (
        true,
        record b {
          buffer = some (resized fresh newsize p b.memory);
          length = newsize;
          memory = cjson_dealloc m;
        },
      )
      else (copy (b.offset + 1) p (record { size = newsize; bytes = fresh b.memory.requests })
          >>= λ newbuffer. ok (
            true,
            record b { buffer = some newbuffer; length = newsize; memory = cjson_dealloc m },
          ))

  -- `ensure`: true for a pointer to the buffer's offset, false for null
  unfoldable pub ensure : ℕ → PrintBuffer → Outcome (Bool × PrintBuffer)
  ensure count b = match_option b.buffer (ok (false, b)) λ p.
      if ltb 0 b.length && leb b.length b.offset
      then ok (false, b)
      else if ltb int_max count
      then ok (false, b)
      else (let needed = count + b.offset + 1 in
          if leb needed b.length
          then ok (true, b)
          else if b.noalloc
          then ok (false, b)
          else if ltb (int_max / 2) needed
          then (if leb needed int_max then grow int_max p b else ok (false, b))
          else grow (needed * 2) p b)

-- `if m == 0 { return 0; }`, and likewise for a null pointer
abbrev pub or_return :
    Outcome (Bool × PrintBuffer)
    → (PrintBuffer → Outcome (Bool × PrintBuffer))
    → Outcome (Bool × PrintBuffer)
or_return m k = m >>= λ r. if r.0 then k r.1 else ok r

module _ (grant : Grant) (reallocate : Bool) (fresh : ℕ → ℕ → ℕ) where
  -- `ensure(count)`, the return if it gives null, and the stores of bytes where it points
  unfoldable pub put : ℕ → Bytes → PrintBuffer → Outcome (Bool × PrintBuffer)
  put count cs b =
      or_return (ensure grant reallocate fresh count b)
        λ b'. (write b'.offset cs b' >>= λ b''. ok (true, b''))
