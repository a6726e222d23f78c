-- ===== src/Print/Number/Result.antt =====
-- src/print.rs: `print_number` writes the number's text, or stops.
use rust_json_port_mortem.Base.{
  ℕ, suc, ◌+◌, ◌≡◌, refl, ap, Bool, some, [], ◌∷◌, ◌++◌, arith, Returns, returns, Returns-branch,
  ltb, length, length-append, map, Option-cases, inl, inr,
}
use rust_json_port_mortem.Model.{Bytes, ℤ}
use rust_json_port_mortem.Alloc.{Grant}
use rust_json_port_mortem.Parse.Number.{Libc}
use rust_json_port_mortem.Print.Buffer.{PrintBuffer}
use rust_json_port_mortem.Print.Buffer.Grow.{Follows-refl}
use rust_json_port_mortem.Print.Number.{Doubles, number_text, with_point, print_number}
use rust_json_port_mortem.Print.Written.{
  Printed, stopped, Printed-move, Printed-bind, Ready, Done, Put-Done_passed, put-Put,
}

length-map : (f : ℕ → ℕ) (s : Bytes) → length (map f s) ≡ length s
length-map f [] = refl
length-map f (c ∷ s) = ap suc (length-map f s)

module _ {D : Type 0} (doubles : Doubles D) (libc : Libc D) where
  length-with_point : (s : Bytes) → length (with_point doubles libc s) ≡ length s
  unfolding with_point
  length-with_point s = length-map _ s

  -- The text of a number stands in the buffer.
  pub record NumberDone (reallocate format : Bool) (d : D) (i : ℤ) (text : Bytes) (depth : ℕ)
      (b : PrintBuffer) : Type 0 where
    pub number : Bytes
    pub is : number_text doubles libc d i ≡ some number
    pub done : Done reallocate format text (with_point doubles libc number) depth b

  module _ (grant : Grant) (reallocate : Bool) (fresh : ℕ → ℕ → ℕ) (format : Bool) where
    pub print_number-Done :
        (text : Bytes) (depth : ℕ) (d : D) (i : ℤ) (b : PrintBuffer)
        → Ready reallocate format text depth b
        → Returns
            (Printed (NumberDone reallocate format d i text depth) b)
            (print_number doubles libc grant reallocate fresh d i b)
    unfolding print_number
    print_number-Done text depth d i b r = elim (Option-cases (number_text doubles libc d i)) [
      | inl e ↦ rw e (returns (stopped (Follows-refl b)))
      | inr (number, e) ↦ simp e (
          Returns-branch (ltb 25 (length number)) (λ _. returns (stopped (Follows-refl b)))
            λ _.
              let out = with_point doubles libc number in
              let whole = length-append out (0 ∷ []) in
              Printed-bind
                (put-Put reallocate format grant fresh (length number + 1) text (out ++ 0 ∷ [])
                  depth b r (omega (arith, whole, length-with_point number)))
                λ b' p. Printed-move b' (b'.offset + length number) b'.depth (record {
                  number = number;
                  is = e;
                  done =
                      Put-Done_passed reallocate format text out depth (length number) b' p
                        (omega (arith, length-with_point number));
                }))
    ]
