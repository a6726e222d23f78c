-- ===== src/Print/Buffer/Grow.antt =====
-- src/print.rs: `ensure` gives room behind the text of the buffer, or refuses.
use rust_json_port_mortem.Base.{
  ℕ, ◌+◌, ◌*◌, ◌/◌, ◌≤◌, ◌<◌, ◌≡◌, ◌≢◌, refl, ◌∙◌, inl, inr, Bool, true, false, ◌&&◌, ◌||◌, some,
  arith, ok, Returns, returns, Returns-branch, ltb, leb, lt→ltb, le→leb, leb→le, if◌then◌else◌,
  match_option, length, Bool-cases,
}
use rust_json_port_mortem.Model.{Bytes}
use rust_json_port_mortem.Alloc.{Memory, Grant, cjson_alloc, cjson_dealloc}
use rust_json_port_mortem.Print.Buffer.{Block, PrintBuffer, copy, resized, grow, ensure, int_max}
use rust_json_port_mortem.Print.Buffer.Room.{Holds-agree, Has}

-- The blocks that the buffer holds.
abbrev pub live : PrintBuffer → ℕ
live b = match_option b.buffer 0 (λ _. 1)

-- What no step of the printer changes, the balance of the blocks, and what a buffer of the caller's
-- keeps.
pub record Follows (b b' : PrintBuffer) : Type 0 where
  pub noalloc : b'.noalloc ≡ b.noalloc
  pub format : b'.format ≡ b.format
  pub fixed : b.noalloc ≡ true → (b'.length ≡ b.length) × (b'.memory ≡ b.memory)
  pub balance :
      b'.memory.allocs + b.memory.frees + live b ≡ b'.memory.frees + b.memory.allocs + live b'

pub Follows-trans : {b c d : PrintBuffer} → Follows b c → Follows c d → Follows b d
Follows-trans f g = record {
  noalloc = g.noalloc ∙ f.noalloc;
  format = g.format ∙ f.format;
  balance = omega (arith, f.balance, g.balance);
  fixed = λ h.
      let first = f.fixed h in
      let second = g.fixed (f.noalloc ∙ h) in (second.0 ∙ first.0, second.1 ∙ first.1);
}

pub Follows-refl : (b : PrintBuffer) → Follows b b
Follows-refl b = record {
  noalloc = refl;
  format = refl;
  balance = omega arith;
  fixed = λ h. (refl, refl);
}

-- A move of the offset and the depth.
pub Follows-move : (b : PrintBuffer) (o d : ℕ) → Follows b (record b { offset = o; depth = d })
Follows-move b o d = record {
  noalloc = refl;
  format = refl;
  balance = omega arith;
  fixed = λ h. (refl, refl);
}

pub copy-ok :
    (n : ℕ) (from to : Block)
    → n ≤ from.size
    → n ≤ to.size
    → copy n from to ≡ ok (record to { bytes = λ k. if ltb k n then from.bytes k else to.bytes k })
unfolding copy
copy-ok n from to h k = rw (le→leb n from.size h) (rw (le→leb n to.size k) refl)

pub chosen : (k n c d : ℕ) → k < n → (if ltb k n then c else d) ≡ c
chosen k n c d h = rw (lt→ltb k n h) refl

module _ (reallocate : Bool) where
  -- An empty block grows by `realloc` only, or not at all.
  abbrev pub Grows : PrintBuffer → Type 0
  Grows b = b.length ≡ 0 → (reallocate || b.noalloc) ≡ true

  -- The result of `ensure` for this many bytes behind a text.
  pub data Ensured (count : ℕ) (text : Bytes) (b : PrintBuffer) : Bool × PrintBuffer → Type 0 where
    room :
        {b' : PrintBuffer}
        → Has text b'
        → b'.offset ≡ b.offset
        → b'.depth ≡ b.depth
        → b.offset + count + 1 ≤ b'.length
        → Grows b'
        → Follows b b'
        → Ensured count text b (true, b')
    refused : {b' : PrintBuffer} → Follows b b' → Ensured count text b (false, b')

  module _ (text : Bytes) (b : PrintBuffer) (h : Has text b) (at : b.offset ≡ length text)
      (count : ℕ) where
    -- A block of the old one's bytes, as far as the text goes, in the place of the old one.
    larger :
        (p' : Block) (m : Memory)
        → b.offset + count + 1 ≤ p'.size
        → ((k : ℕ) → k < length text → p'.bytes k ≡ h.block.bytes k)
        → m.allocs + b.memory.frees + 1 ≡ m.frees + b.memory.allocs + 1
        → b.noalloc ≡ false
        → Ensured count text b (true, record b { buffer = some p'; length = p'.size; memory = m })
    larger p' m fits same balanced allocates =
        room
          (record {
            block = p';
            is = refl;
            size = refl;
            holds =
                Holds-agree h.block.bytes p'.bytes 0 text (λ k lt. same k (omega arith)) h.holds;
            fits = omega arith;
          })
          refl refl fits (λ e. absurd (omega arith))
          (record {
            noalloc = refl;
            format = refl;
            balance = rw h.is (omega (arith, balanced));
            fixed = λ e. absurd (cc (e, allocates));
          })

module _ (grant : Grant) (reallocate : Bool) (fresh : ℕ → ℕ → ℕ) where
  module _ (text : Bytes) (b : PrintBuffer) (h : Has text b) (at : b.offset ≡ length text)
      (count : ℕ) where
    below_block : (k : ℕ) → k < length text → k < h.block.size
    below_block k lt = omega (arith, h.size, h.fits)

    readable :
        (b.length ≡ 0 → reallocate ≡ true)
        → (b.length ≢ 0 → b.offset < b.length)
        → reallocate ≡ false
        → b.offset + 1 ≤ h.block.size
    readable empty inside none_there = ground (arith, h.size)

    grow-Ensured :
        (newsize : ℕ)
        → b.offset + count + 1 ≤ newsize
        → (b.length ≡ 0 → reallocate ≡ true)
        → (b.length ≢ 0 → b.offset < b.length)
        → b.noalloc ≡ false
        → Returns (Ensured reallocate count text b) (grow grant reallocate fresh newsize h.block b)
    unfolding grow cjson_alloc cjson_dealloc resized
    grow-Ensured newsize fits empty inside allocates =
        let newbuffer : Block = record { size = newsize; bytes = fresh b.memory.requests } in
        elim (Bool-cases (grant b.memory.requests newsize)) [
          | inl e ↦ elim (Bool-cases reallocate) [
            | inl r ↦ rw e (
                rw r (
                  returns (
                    larger true text b h at count (resized fresh newsize h.block b.memory) _ fits
                      (λ k lt. chosen k h.block.size _ _ (below_block k lt)) (omega arith)
                      allocates)))
            | inr r ↦ rw e (
                rw r (
                  rw
                    (copy-ok (b.offset + 1) h.block newbuffer (readable empty inside r)
                      (omega arith))
                    (returns (
                      larger false text b h at count
                        (record {
                          size = newsize;
                          bytes = λ k.
                              if ltb k (b.offset + 1)
                              then h.block.bytes k
                              else fresh b.memory.requests k;
                        })
                        _ fits (λ k lt. chosen k (b.offset + 1) _ _ (omega arith)) (omega arith)
                        allocates))))
          ]
          | inr e ↦ rw e (
              returns (
                refused (record {
                  noalloc = refl;
                  format = refl;
                  balance = rw h.is (omega arith);
                  fixed = λ h. absurd (cc (h, allocates));
                })))
        ]

    -- Where the block is not empty, or may be reallocated, or is not to grow, `ensure` behind a text of the
    -- buffer's makes no access outside of a block: it gives room for the bytes and one more behind the text,
    -- which stays, or refuses, with the blocks in balance.
    pub ensure-Ensured :
        Grows reallocate b
        → Returns (Ensured reallocate count text b) (ensure grant reallocate fresh count b)
    unfolding ensure
    ensure-Ensured grows =
        let needed : ℕ = count + b.offset + 1 in
        let keep : Returns (Ensured reallocate count text b) (ok (false, b)) =
          returns (refused (Follows-refl b)) in
        simp h.is (
          Returns-branch (ltb 0 b.length && leb b.length b.offset) (λ _. keep)
            λ inside.
              Returns-branch (ltb int_max count) (λ _. keep)
                λ small.
                  Returns-branch (leb needed b.length)
                    (λ e. returns (
                      room h refl refl (omega (arith, leb→le needed b.length e)) grows
                        (Follows-refl b)))
                    λ e.
                      Returns-branch b.noalloc (λ _. keep)
                        λ allocates.
                          let empty : b.length ≡ 0 → reallocate ≡ true =
                            λ z. ground (arith, grows z) in
                          let within : b.length ≢ 0 → b.offset < b.length = λ z. ground arith in
                          Returns-branch (ltb (int_max / 2) needed)
                            (λ large.
                              Returns-branch (leb needed int_max)
                                (λ e'.
                                  grow-Ensured int_max (omega (arith, leb→le needed int_max e'))
                                    empty within allocates)
                                (λ _. keep))
                            (λ _. grow-Ensured (needed * 2) (omega arith) empty within allocates))
