-- ===== src/Print/Text/Result.antt =====
-- src/print.rs: `print_string_ptr` writes the quoted text, or stops.
use rust_json_port_mortem.Base.{
  ℕ, ◌+◌, ◌≤◌, ◌≡◌, sym, subst, Bool, Option, none, some, [], ◌∷◌, ◌++◌, append_assoc, arith,
  Returns, returns, Returns-bind, Returns-mono, Returns-branch, length, length-append, ◌==◌, ==_iff,
}
use rust_json_port_mortem.Model.{Bytes}
use rust_json_port_mortem.Alloc.{Grant}
use rust_json_port_mortem.Print.Buffer.{PrintBuffer}
use rust_json_port_mortem.Print.Buffer.Room.{Has, Wrote, write-Wrote, Wrote-nil, Wrote-trans}
use rust_json_port_mortem.Print.Text.{
  escape, escape_characters, write_escaped, write_quoted, print_string_ptr,
}
use rust_json_port_mortem.Print.Text.Escape.{
  escape_all, quoted, length-escape_all, escape_all-plain, NoNul?, NoNul-quoted,
}
use rust_json_port_mortem.Print.Written.{
  Printed, Printed-bind, Ready, Done, Put-Done_whole, put-Put, write-Put, ensure-Roomy, Wrote-Put,
  Printed-map, Wrote-Put, Printed-map,
}

write_escaped-Wrote :
    (text s : Bytes) (o : ℕ) (b : PrintBuffer)
    → Has text b
    → o ≡ length text
    → o + length (escape_all s) ≤ b.length
    → Returns (Wrote text (escape_all s) b) (write_escaped o s b)
unfolding write_escaped escape_all
write_escaped-Wrote text [] o b h at room = returns (Wrote-nil text b h)
write_escaped-Wrote text (c ∷ s) o b h at room =
    let parts = length-append (escape c) (escape_all s) in
    let before = length-append text (escape c) in
    Returns-bind (write-Wrote text (escape c) o b h at (omega (arith, parts))) λ b1 w.
      Returns-mono
        (write_escaped-Wrote (text ++ escape c) s (o + length (escape c)) b1 w.has
          (omega (arith, before)) (omega (arith, parts, w.same.length)))
        λ b2 v. Wrote-trans text (escape c) (escape_all s) b b1 b2 w v

-- The three writes of a text with escapes: the quote, the escapes, the quote and the nul.
write_quoted-Wrote :
    (text s : Bytes) (b : PrintBuffer)
    → Has text b
    → b.offset ≡ length text
    → b.offset + (length s + escape_characters s + 3) + 1 ≤ b.length
    → Returns
        (Wrote text (quoted (some s) ++ 0 ∷ []) b)
        (write_quoted (length s + escape_characters s) s b)
unfolding quoted write_quoted
write_quoted-Wrote text s b h at room =
    let whole = length-escape_all s in
    let first = length-append text (b'"' ∷ []) in
    let second = length-append (text ++ b'"' ∷ []) (escape_all s) in
    Returns-bind (write-Wrote text (b'"' ∷ []) b.offset b h at (omega arith)) λ b1 w1.
      Returns-bind
        (write_escaped-Wrote (text ++ b'"' ∷ []) s (b.offset + 1) b1 w1.has (omega (arith, first))
          (omega (arith, whole, w1.same.length)))
        λ b2 w2.
          Returns-mono
            (write-Wrote ((text ++ b'"' ∷ []) ++ escape_all s) (b'"' ∷ 0 ∷ [])
              (b.offset + (length s + escape_characters s) + 1) b2 w2.has
              (omega (arith, first, second, whole)) (omega (arith, w1.same.length, w2.same.length)))
            λ b3 w3.
              subst (λ t. Wrote text (b'"' ∷ t) b b3)
                (sym (append_assoc (escape_all s) (b'"' ∷ []) (0 ∷ [])))
                (Wrote-trans text (b'"' ∷ []) (escape_all s ++ b'"' ∷ 0 ∷ []) b b1 b3 w1
                  (Wrote-trans (text ++ b'"' ∷ []) (escape_all s) (b'"' ∷ 0 ∷ []) b1 b2 b3 w2 w3))

module _ (grant : Grant) (reallocate : Bool) (fresh : ℕ → ℕ → ℕ) (format : Bool) where
  -- `print_string_ptr` writes the quoted and escaped text and a nul behind what the buffer has, within
  -- its block, or stops.
  pub print_string_ptr-Done :
      (text : Bytes) (depth : ℕ) (s : Option Bytes) (b : PrintBuffer)
      → Ready reallocate format text depth b
      → NoNul? s
      → Returns
          (Printed (Done reallocate format text (quoted s) depth) b)
          (print_string_ptr grant reallocate fresh s b)
  unfolding print_string_ptr quoted
  print_string_ptr-Done text depth none b r n =
      Printed-map
        (λ b' p.
          Put-Done_whole reallocate format text (quoted none) depth b' p (NoNul-quoted none n))
        (put-Put reallocate format grant fresh 3 text (b'"' ∷ b'"' ∷ 0 ∷ []) depth b r
          (omega arith))
  print_string_ptr-Done text depth (some s) b r n =
      Printed-map
        (λ b' p.
          Put-Done_whole reallocate format text (quoted (some s)) depth b' p
            (NoNul-quoted (some s) n))
        (Printed-bind
          (ensure-Roomy reallocate format grant fresh (length s + escape_characters s + 3) text
            depth b r)
          λ b' o.
            Returns-branch (escape_characters s == 0)
              (λ e.
                let plain = escape_all-plain s ((==_iff (escape_characters s) 0).0 e) in
                rw plain (
                  rw (append_assoc s (b'"' ∷ []) (0 ∷ [])) (
                    write-Put reallocate format text (b'"' ∷ (s ++ b'"' ∷ 0 ∷ [])) depth b' o.ready
                      (omega (arith, length-append s (b'"' ∷ 0 ∷ []), o.fits)))))
              (λ _.
                Returns-bind (write_quoted-Wrote text s b' o.ready.has o.ready.offset o.fits)
                  λ b3 w. returns (
                    Wrote-Put reallocate format text (quoted (some s) ++ 0 ∷ []) depth b' b3 o.ready
                      w)))
