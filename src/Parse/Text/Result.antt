-- ===== src/Parse/Text/Result.antt =====
-- src/parse.rs: the outcome of `parse_string`.
use rust_json_port_mortem.Base.{
  ℕ, ◌+◌, ◌-◌, ◌≤◌, ◌<◌, ◌≡◌, refl, Option, none, some, [], arith, Returns, returns, Returns-bind,
  Bool-cases, leb, ◌==◌, if◌then◌else◌, true, lt→ltb, ge→ltb, length, inl, inr, not, ok, le→leb,
  gt→leb, ==_iff, match_option, ◌>>=◌,
}
use native.Mathlib.Decide.{dec_lt}
use rust_json_port_mortem.Model.{Bytes}
use rust_json_port_mortem.Alloc.{Memory, Grant, Keeps, cjson_alloc, cjson_dealloc}
use rust_json_port_mortem.Parse.State.{Input, ParseBuffer, read, read-ok}
use rust_json_port_mortem.Parse.Text.{write_bytes, copy_string, allocate_string, parse_string}
use rust_json_port_mortem.Parse.Text.Scan.{
  Tail, Tail-room, Tail-close, Scanned, unfinished, at_end, closed, scan_loop-Scanned,
}
use rust_json_port_mortem.Parse.Text.Copy.{inside, level}
use rust_json_port_mortem.Parse.Text.Loop.{Copies, Copied, copy_loop-Copied}

module _ (i : Input) where
  -- The quote at `s` opens a string that the quote at `e` closes, and that stands for `out`: what is
  -- copied ends at `e`, or behind it where the last escape takes the closing quote for its character.
  pub record IsString (s e : ℕ) (out : Bytes) : Type 0 where
    pub opens : i.content s ≡ b'"'
    pub pairs : ℕ
    pub scanned : Tail i e (s + 1) pairs
    pub last : ℕ
    pub copied : Copies i e (s + 1) last out
    pub whole : e ≤ last
    pub shorter : length out + pairs + (s + 1) ≤ e

  pub data StringResult (b : ParseBuffer) : Option Bytes × ParseBuffer → Type 0 where
    accepted :
        {out : Bytes} {b' : ParseBuffer} (e : ℕ)
        → IsString b.offset e out
        → b'.offset ≡ e + 1
        → e < i.length
        → b'.depth ≡ b.depth
        → Keeps 1 b.memory b'.memory
        → StringResult b (some out, b')
    rejected :
        {b' : ParseBuffer}
        → b.offset < b'.offset
        → b'.offset ≤ i.length
        → b'.depth ≡ b.depth
        → Keeps 0 b.memory b'.memory
        → StringResult b (none, b')

  module _ (grant : Grant) (b : ParseBuffer) (start : b.offset < i.length) where
    module _ (e k : ℕ) (opens : i.content b.offset ≡ b'"') (t : Tail i e (b.offset + 1) k) where
      abbrev block : ℕ
      block = e - b.offset - k + 1

      copy_string-StringResult :
          (m : Memory)
          → Keeps 1 b.memory m
          → Returns (StringResult b) (copy_string i block b.offset e (record b { memory = m }))
      unfolding copy_string write_bytes cjson_dealloc
      copy_string-StringResult m keeps =
          Returns-bind
            (copy_loop-Copied i e (b.offset + 1) k block (omega (arith, Tail-room i t))
              (Tail-close i t).0 (i.length + 1) (b.offset + 1) []
              (omega (arith, Tail-room i t, (Tail-close i t).0))
              (inside k (omega (arith, Tail-room i t)) (level t) (omega arith)))
            λ (q, out) c. elim (dec_lt q e) [
              | yes h ↦ rw (lt→ltb q e h) (
                  returns (
                    rejected (omega (arith, c.from)) (omega (arith, (Tail-close i t).0)) refl
                      (omega arith)))
              | no h ↦
                  rw (ge→ltb q e (omega arith), nul out (c.fits))
                    (returns (accepted e (whole q out h c) refl (Tail-close i t).0 refl keeps))
            ]
        where
          nul :
              (out : Bytes)
              → length out + k + (b.offset + 1) ≤ e
              → leb (length out + 1) block ≡ true
          nul out fits = le→leb _ _ (omega arith)

          whole :
              (q : ℕ) (out : Bytes)
              → ¬ (q < e)
              → Copied i e (b.offset + 1) k (b.offset + 1) [] (q, out)
              → IsString b.offset e out
          whole q out h c = record {
            opens = opens;
            pairs = k;
            scanned = t;
            last = q;
            copied = rw c.output c.copies;
            whole = omega arith;
            shorter = c.fits;
          }

      allocate_string-StringResult : Returns (StringResult b) (allocate_string grant i e k b)
      unfolding allocate_string cjson_alloc
      allocate_string-StringResult = elim (Bool-cases (grant b.memory.requests block)) [
        | inl yes_ ↦ rw yes_ (copy_string-StringResult _ (omega arith))
        | inr no_ ↦ rw no_ (returns (rejected (omega arith) (omega arith) refl (omega arith)))
      ]

    -- The function reads inside of the buffer only, writes inside of the block that it allocates, and
    -- ends; it gives the block back unless it returns it. An accepted string is what the bytes behind its
    -- opening quote stand for, a plain byte for itself and an escape as RFC 8259 has it or as its `\u`
    -- literal encodes, up to the closing quote, which the last escape may take for its character.
    pub parse_string-StringResult : Returns (StringResult b) (parse_string grant i b)
    unfolding parse_string
    parse_string-StringResult =
        rw (read-ok i b.offset start) (elim (Bool-cases (i.content b.offset == b'"')) [
          | inr miss ↦ rw miss (returns fail)
          | inl opens ↦ rw opens (
              Returns-bind (scan_loop-Scanned i (i.length + 1) (b.offset + 1) 0 (omega arith))
                λ o sc. scanned (ground arith) o sc)
        ])
      where
        fail : StringResult b (none, record b { offset = b.offset + 1 })
        fail = rejected (omega arith) (omega arith) refl (omega arith)

        scanned :
            i.content b.offset ≡ b'"'
            → (o : Option (ℕ × ℕ)) → Scanned i (b.offset + 1) 0 o
            → Returns (StringResult b) (
                match_option o
                  (ok (none, record b { offset = b.offset + 1 }))
                  λ (input_end, skipped_bytes).
                    if leb i.length input_end
                    then ok (none, record b { offset = b.offset + 1 })
                    else (do
                      close ← read i input_end
                      if not (close == b'"')
                          then ok (none, record b { offset = b.offset + 1 })
                          else allocate_string grant i input_end skipped_bytes b))
        scanned opens _ unfinished = returns fail
        scanned opens _ (at_end {e} l) = rw (le→leb i.length e l) (returns fail)
        scanned opens _ (closed {e} {s'} k eq t) =
            let same : s' ≡ k = omega arith in
            let close = Tail-close i t in
            let is_quote : (i.content e == b'"') ≡ true = (==_iff _ _).1 close.1 in
            rw (gt→leb i.length e close.0, read-ok i e close.0, is_quote, same)
              (allocate_string-StringResult e k opens t)
