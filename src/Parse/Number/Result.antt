-- ===== src/Parse/Number/Result.antt =====
-- src/parse.rs: the outcome of `parse_number`.
use rust_json_port_mortem.Base.{
  ℕ, zero, suc, ◌+◌, ◌-◌, ◌≤◌, ◌<◌, ◌≡◌, refl, ap, Bool, Option, none, some, [], ◌∷◌, arith,
  Returns, returns, Returns-bind, Bool-cases, ◌==◌, if◌then◌else◌, true, false, lt→ltb, ge→ltb,
  length, inl, inr, map, ok, ◌++◌, le→leb, length-append,
}
use native.Mathlib.Decide.{dec_lt}
use rust_json_port_mortem.Model.{
  Bytes, ℤ, CJson, node, nil, nesting, cjson_number, cjson_nesting_limit,
}
use rust_json_port_mortem.Alloc.{Memory, Grant, Keeps, cjson_alloc, cjson_dealloc}
use rust_json_port_mortem.Manip.Delete.{is_reference, is_string_is_const}
use rust_json_port_mortem.Parse.Text.{write_bytes}
use rust_json_port_mortem.Parse.State.{Input, ParseBuffer, read-ok}
use rust_json_port_mortem.Parse.Parsed.{Fresh, fresh, owned-node, Parsed, parsed, failed}
use rust_json_port_mortem.Parse.Number.{
  Libc, StrtodWithin, saturate, get_decimal_point, is_number_byte, number_loop, copy_bytes,
  convert_number, parse_number,
}

-- What fits into a new block is written.
write_bytes-ok : (size : ℕ) (bs : Bytes) → length bs ≤ size → write_bytes size [] bs ≡ ok bs
unfolding write_bytes
write_bytes-ok size bs h = rw (le→leb (0 + length bs) size (omega (arith, h))) refl

length-map : (f : ℕ → ℕ) (xs : Bytes) → length (map f xs) ≡ length xs
length-map f [] = refl
length-map f (x ∷ xs) = ap suc (length-map f xs)

module _ (i : Input) (o : ℕ) where
  number_loop-Returns :
      (f n : ℕ) (p : Bool)
      → o + n ≤ i.length
      → i.length - (o + n) < f
      → Returns (λ r. o + r.0 ≤ i.length) (number_loop i f o n p)
  unfolding number_loop
  number_loop-Returns zero n p h fuel = absurd (omega arith)
  number_loop-Returns (suc f) n p h fuel = elim (dec_lt (o + n) i.length) [
    | no q ↦ rw (ge→ltb (o + n) i.length (omega arith)) (returns h)
    | yes q ↦
        rw (lt→ltb (o + n) i.length q, read-ok i (o + n) q)
          (elim (Bool-cases (is_number_byte (i.content (o + n)))) [
            | inl d ↦ rw d (number_loop-Returns f (n + 1) p (omega arith) (omega arith))
            | inr d ↦ rw d (elim (Bool-cases (i.content (o + n) == b'.')) [
              | inl e ↦ rw e (number_loop-Returns f (n + 1) true (omega arith) (omega arith))
              | inr e ↦ rw e (returns h)
            ])
          ])
  ]

copy_bytes-length :
    (i : Input) (o n : ℕ) → o + n ≤ i.length → Returns (λ t. length t ≡ n) (copy_bytes i o n)
unfolding copy_bytes
copy_bytes-length i o zero h = returns refl
copy_bytes-length i o (suc n) h =
    rw (read-ok i o (omega arith))
      (Returns-bind (copy_bytes-length i (o + 1) n (omega arith)) λ cs e. returns (ap suc e))

module _ {D : Type 0} (libc : Libc D) (within : StrtodWithin libc) (grant : Grant) (i : Input) where
  module _ (t : ℕ) (vi : ℤ) (vd : D) (s : Option Bytes) (r : is_reference t ≡ false)
      (k : is_string_is_const t ≡ false) (b : ParseBuffer) (h : b.depth ≤ cjson_nesting_limit) where
    abbrev item : CJson D
    item = node t none vi vd s nil

    -- The text that is handed to `strtod` is as long as the one that was read.
    length-text :
        (p : Bool) (text : Bytes)
        → length
            (if p then map (λ c. if c == b'.' then get_decimal_point libc else c) text else text)
          ≡ length text
    length-text true text = length-map _ text
    length-text false text = refl

    converted :
        (n : ℕ) (m : Memory) (number : D) (after_end : ℕ)
        → after_end ≤ n
        → b.offset + n ≤ i.length
        → Keeps 1 b.memory m
        → Parsed i item b (
            if after_end == 0 then (none, record b { memory = cjson_dealloc m }) else (
              some (node cjson_number none (saturate libc number) number s nil),
              record b { offset = b.offset + after_end; memory = cjson_dealloc m },
            ))
    unfolding cjson_dealloc nesting
    converted n m number zero le fits keeps = failed (omega arith) (omega arith)
    converted n m number (suc a) le fits keeps =
        let some_read : (suc a == 0) ≡ false = ground arith in
        rw some_read (
          parsed (omega arith) (omega arith) refl (omega arith) (
            omega (
              arith,
              owned-node t none vi vd s nil r k,
              owned-node cjson_number none (saturate libc number) number s nil refl refl,
            )))

    convert_number-Parsed :
        (n : ℕ) (p : Bool) (m : Memory)
        → b.offset + n ≤ i.length
        → Keeps 1 b.memory m
        → Returns
            (Parsed i item b)
            (convert_number libc grant i (n + 1) n p item (record b { memory = m }))
    unfolding convert_number
    convert_number-Parsed n p m fits keeps =
        Returns-bind (copy_bytes-length i b.offset n fits) λ text e.
          let c_string =
            if p then map (λ c. if c == b'.' then get_decimal_point libc else c) text else text in
          rw
            (write_bytes-ok (n + 1) (text ++ 0 ∷ [])
              (omega (arith, e, length-append text (0 ∷ []))))
            (returns (
              converted n m (libc.strtod c_string).0 (libc.strtod c_string).1
                (omega (arith, within c_string, length-text p text)) fits keeps))

    number-Parsed :
        b.offset ≤ i.length → Returns (Parsed i item b) (parse_number libc grant i item b)
    unfolding parse_number cjson_alloc
    number-Parsed o =
        Returns-bind
          (number_loop-Returns i b.offset (i.length + 1) 0 false (omega arith) (omega arith))
          λ (n, p) fits. elim (Bool-cases (grant b.memory.requests (n + 1))) [
            | inl yes_ ↦ rw yes_ (convert_number-Parsed n p _ fits (omega arith))
            | inr no_ ↦ rw no_ (returns (failed o (omega arith)))
          ]

  -- The function reads inside of the buffer only, and ends; it gives back the copy that it makes.
  pub parse_number-Parsed :
      {item : CJson D} (b : ParseBuffer)
      → b.depth ≤ cjson_nesting_limit
      → b.offset ≤ i.length
      → Fresh item
      → Returns (Parsed i item b) (parse_number libc grant i item b)
  parse_number-Parsed b h o (fresh t vi vd s r k) = number-Parsed t vi vd s r k b h o
