-- ===== src/Print/Value/Containers.antt =====
-- src/print.rs: what `print_array`, `print_object` and the scalars of `print_value` write.
use rust_json_port_mortem.Base.{
  ℕ, ◌+◌, ◌≤◌, ◌≡◌, refl, subst, Bool, false, Option, none, some, [], ◌∷◌, ◌++◌, append_assoc,
  arith, Outcome, ok, Returns, returns, Returns-branch, leb, match_option, length, bit_and,
  length-append,
}
use rust_json_port_mortem.Model.{
  Bytes, ℤ, CJson, node, Children, cjson_array, cjson_object, cjson_raw, cjson_nesting_limit,
}
use rust_json_port_mortem.Alloc.{Grant}
use rust_json_port_mortem.Manip.Lookup.{string}
use rust_json_port_mortem.Manip.Lookup.Found.{NoNul}
use rust_json_port_mortem.Parse.Number.{Libc}
use rust_json_port_mortem.Print.Buffer.{PrintBuffer, put}
use rust_json_port_mortem.Print.Buffer.Grow.{Follows-refl}
use rust_json_port_mortem.Print.Number.{Doubles}
use rust_json_port_mortem.Print.Text.Escape.{NoNul?}
use rust_json_port_mortem.Print.Grammar.{
  Prints, Elements, Members, is_raw, is_array, is_object, NulFree, tabs, brace,
}
use rust_json_port_mortem.Print.Value.{print_array, print_object}
use rust_json_port_mortem.Print.Value.Pieces.{
  open_array-Ready, open_object-Ready, close_array-Done, close_object-Done,
}
use rust_json_port_mortem.Print.Written.{
  Printed, stopped, Printed-bind, Printed-map, Ready, Done, put-Put, Put-Done_whole,
}

module _ {D : Type 0} (doubles : Doubles D) (libc : Libc D) (reallocate format : Bool) where
  -- A text of an item stands in the buffer,
  pub record ValueDone (x : CJson D) (text : Bytes) (depth : ℕ) (b : PrintBuffer) : Type 0 where
    pub out : Bytes
    pub prints : Prints doubles libc format depth x out
    pub done : Done reallocate format text out depth b

  -- or one of the children, which the offset has passed.
  pub record LoopDone (Text : ℕ → Children D → Bytes → Type 0) (c : Children D) (text : Bytes)
      (depth : ℕ) (b : PrintBuffer) : Type 0 where
    pub out : Bytes
    pub prints : Text depth c out
    pub ready : Ready reallocate format (text ++ out) depth b

  module _ (grant : Grant) (fresh : ℕ → ℕ → ℕ) where
    pub literal-Done :
        (count : ℕ) (x : CJson D) (text out : Bytes) (depth : ℕ) (b : PrintBuffer)
        → Ready reallocate format text depth b
        → length out + 1 ≤ count
        → NoNul out
        → Prints doubles libc format depth x out
        → Returns
            (Printed (ValueDone x text depth) b)
            (put grant reallocate fresh count (out ++ 0 ∷ []) b)
    literal-Done count x text out depth b r room n prints =
        Printed-map
          (λ b' p. record {
            out = out;
            prints = prints;
            done = Put-Done_whole reallocate format text out depth b' p n;
          })
          (put-Put reallocate format grant fresh count text (out ++ 0 ∷ []) depth b r
            (omega (arith, length-append out (0 ∷ []))))

    pub print_array-Done :
        (t : ℕ) (v s : Option Bytes) (i : ℤ) (d : D) (c : Children D) (text : Bytes) (depth : ℕ)
        (loop : PrintBuffer → Outcome (Bool × PrintBuffer)) (b : PrintBuffer)
        → ((text : Bytes) (b : PrintBuffer)
            → Ready reallocate format text (depth + 1) b
            → Returns
                (Printed (LoopDone (Elements doubles libc format) c text (depth + 1)) b)
                (loop b))
        → bit_and t 0xFF ≡ cjson_array
        → Ready reallocate format text depth b
        → Returns
            (Printed (ValueDone (node t v i d s c) text depth) b)
            (print_array grant reallocate fresh loop b)
    unfolding print_array
    print_array-Done t v s i d c text depth loop b elements e r =
        Returns-branch (leb cjson_nesting_limit b.depth) (λ _. returns (stopped (Follows-refl b)))
          λ shallow.
            Printed-bind (open_array-Ready grant reallocate fresh format text depth b r) λ b1 r1.
              Printed-bind (elements (text ++ b'[' ∷ []) b1 r1) λ b2 l.
                Printed-map
                  (λ b3 done. record {
                    out = (b'[' ∷ l.out) ++ b']' ∷ [];
                    prints = is_array e (ground (arith, r.depth_is)) l.prints;
                    done = done;
                  })
                  (close_array-Done grant reallocate fresh format text (b'[' ∷ l.out) depth b2 (
                    subst (λ t. Ready reallocate format t (depth + 1) b2)
                      (append_assoc text (b'[' ∷ []) l.out) l.ready))

    pub print_object-Done :
        (t : ℕ) (v s : Option Bytes) (i : ℤ) (d : D) (c : Children D) (text : Bytes) (depth : ℕ)
        (loop : PrintBuffer → Outcome (Bool × PrintBuffer)) (b : PrintBuffer)
        → ((text : Bytes) (b : PrintBuffer)
            → Ready reallocate format text (depth + 1) b
            → Returns
                (Printed (LoopDone (Members doubles libc format) c text (depth + 1)) b)
                (loop b))
        → bit_and t 0xFF ≡ cjson_object
        → Ready reallocate format text depth b
        → Returns
            (Printed (ValueDone (node t v i d s c) text depth) b)
            (print_object grant reallocate fresh loop b)
    unfolding print_object
    print_object-Done t v s i d c text depth loop b members e r =
        Returns-branch (leb cjson_nesting_limit b.depth) (λ _. returns (stopped (Follows-refl b)))
          λ shallow.
            Printed-bind (open_object-Ready grant reallocate fresh format text depth b r) λ b1 r1.
              Printed-bind (members (text ++ brace format) b1 r1) λ b2 l.
                Printed-map
                  (λ b3 done. record {
                    out = (brace format ++ l.out) ++ (tabs format depth ++ b'}' ∷ []);
                    prints = is_object e (ground (arith, r.depth_is)) l.prints;
                    done = done;
                  })
                  (close_object-Done grant reallocate fresh format text (brace format ++ l.out)
                    depth b2
                    (subst (λ t. Ready reallocate format t (depth + 1) b2)
                      (append_assoc text (brace format) l.out) l.ready))

    pub NulFree-string : (x : CJson D) → NulFree x → NoNul? (string x)
    unfolding NulFree
    NulFree-string (node t v i d s c) n = n.1

    pub raw-Done :
        (t : ℕ) (v s : Option Bytes) (i : ℤ) (d : D) (c : Children D) (text : Bytes) (depth : ℕ)
        (b : PrintBuffer)
        → bit_and t 0xFF ≡ cjson_raw
        → NoNul? v
        → Ready reallocate format text depth b
        → Returns (Printed (ValueDone (node t v i d s c) text depth) b) (
            match_option v
              (ok (false, b))
              (λ raw. put grant reallocate fresh (length raw + 1) (raw ++ 0 ∷ []) b))
    raw-Done t none s i d c text depth b e n r = returns (stopped (Follows-refl b))
    raw-Done t (some raw) s i d c text depth b e n r =
        literal-Done (length raw + 1) (node t (some raw) i d s c) text raw depth b r (omega arith) n
          (is_raw e refl)
