-- ===== src/Print/Value/Result.antt =====
-- src/print.rs: `print_value` writes a text of the grammar, or stops.
use rust_json_port_mortem.Base.{
  ℕ, ◌+◌, ◌≡◌, subst, Bool, true, [], ◌++◌, append_assoc, append-nil, arith, Returns, returns,
  Returns-branch, ◌==◌, ==_iff, bit_and,
}
use rust_json_port_mortem.Model.{
  Bytes, CJson, node, Children, nil, cons, cjson_false, cjson_true, cjson_null, cjson_number,
  cjson_string, cjson_array, cjson_object, cjson_raw,
}
use rust_json_port_mortem.Alloc.{Grant}
use rust_json_port_mortem.Manip.Lookup.{string}
use rust_json_port_mortem.Parse.Number.{Libc}
use rust_json_port_mortem.Print.Buffer.{PrintBuffer}
use rust_json_port_mortem.Print.Buffer.Grow.{Follows-refl}
use rust_json_port_mortem.Print.Number.{Doubles}
use rust_json_port_mortem.Print.Number.Result.{print_number-Done}
use rust_json_port_mortem.Print.Text.Escape.{quoted}
use rust_json_port_mortem.Print.Text.Result.{print_string_ptr-Done}
use rust_json_port_mortem.Print.Grammar.{
  Elements, Members, is_null, is_false, is_true, is_number, is_string, no_element, element,
  no_member, member, NulFree, NulFreeAll, comma, tabs, before_value, behind_value,
}
use rust_json_port_mortem.Print.Value.{
  print_value, print_elements, print_members, null_text, false_text, true_text,
}
use rust_json_port_mortem.Print.Value.Pieces.{
  separate-Ready, indent-Ready, colon-Ready, end_member-Ready,
}
use rust_json_port_mortem.Print.Written.{
  Printed, printed, stopped, Printed-bind, Printed-map, Ready, Done-bind,
}
use rust_json_port_mortem.Print.Value.Containers.{
  ValueDone, LoopDone, literal-Done, print_array-Done, print_object-Done, NulFree-string, raw-Done,
}

module _ {D : Type 0} (doubles : Doubles D) (libc : Libc D) (reallocate format : Bool) where
  module _ (grant : Grant) (fresh : ℕ → ℕ → ℕ) where
    mutual
      unfolding print_value NulFree

      value-Done :
          (x : CJson D) (text : Bytes) (depth : ℕ) (b : PrintBuffer)
          → NulFree x
          → Ready reallocate format text depth b
          → Returns
              (Printed (ValueDone doubles libc reallocate format x text depth) b)
              (print_value doubles libc grant reallocate fresh x b)
      value-Done (node t v i d s c) text depth b n r =
          let x = node t v i d s c in
          let base = bit_and t 0xFF in
          let is = λ (k : ℕ) (e : (base == k) ≡ true). (==_iff base k).0 e in
          Returns-branch (base == cjson_null)
            (λ e.
              literal-Done doubles libc reallocate format grant fresh 5 x text null_text depth b r
                (omega arith) (omega arith) (is_null (is 4 e)))
            λ _.
              Returns-branch (base == cjson_false)
                (λ e.
                  literal-Done doubles libc reallocate format grant fresh 6 x text false_text depth
                    b r (omega arith) (omega arith) (is_false (is 1 e)))
                λ _.
                  Returns-branch (base == cjson_true)
                    (λ e.
                      literal-Done doubles libc reallocate format grant fresh 5 x text true_text
                        depth b r (omega arith) (omega arith) (is_true (is 2 e)))
                    λ _.
                      Returns-branch (base == cjson_number)
                        (λ e.
                          Printed-map
                            (λ b' p. record {
                              out = _;
                              prints = is_number (is 8 e) p.is;
                              done = p.done;
                            })
                            (print_number-Done doubles libc grant reallocate fresh format text depth
                              d i b r))
                        λ _.
                          Returns-branch (base == cjson_raw)
                            (λ e.
                              raw-Done doubles libc reallocate format grant fresh t v s i d c text
                                depth b (is 128 e) n.0 r)
                            λ _.
                              Returns-branch (base == cjson_string)
                                (λ e.
                                  Printed-map
                                    (λ b' p. record {
                                      out = quoted v;
                                      prints = is_string (is 16 e);
                                      done = p;
                                    })
                                    (print_string_ptr-Done grant reallocate fresh format text depth
                                      v b r n.0))
                                λ _.
                                  Returns-branch (base == cjson_array)
                                    (λ e.
                                      print_array-Done doubles libc reallocate format grant fresh t
                                        v s i d c text depth
                                        (print_elements doubles libc grant reallocate fresh c) b
                                        (λ text b r. Elements-Done c text (depth + 1) b n.2 r)
                                        (is 32 e) r)
                                    λ _.
                                      Returns-branch (base == cjson_object)
                                        (λ e.
                                          print_object-Done doubles libc reallocate format grant
                                            fresh t v s i d c text depth
                                            (print_members doubles libc grant reallocate fresh c) b
                                            (λ text b r. Members-Done c text (depth + 1) b n.2 r)
                                            (is 64 e) r)
                                        λ _. returns (stopped (Follows-refl b))

      Elements-Done :
          (c : Children D) (text : Bytes) (depth : ℕ) (b : PrintBuffer)
          → NulFreeAll c
          → Ready reallocate format text depth b
          → Returns
              (Printed
                (LoopDone doubles libc reallocate format
                  (Elements doubles libc format)
                  c
                  text
                  depth)
                b)
              (print_elements doubles libc grant reallocate fresh c b)
      Elements-Done nil text depth b n r = returns (
          printed (record { out = []; prints = no_element; ready = rw (append-nil text) r })
            (Follows-refl b))
      Elements-Done (cons x next) text depth b n r =
          Printed-bind (value-Done x text depth b n.0 r) λ b1 p.
            Done-bind reallocate format text p.out depth b1 p.done λ b2 r2.
              Printed-bind
                (separate-Ready grant reallocate fresh format (text ++ p.out) depth next b2 r2)
                λ b3 r3.
                  Printed-map
                    (λ b4 l. record {
                      out = (p.out ++ comma format next) ++ l.out;
                      prints = element p.prints l.prints;
                      ready =
                          subst (λ t. Ready reallocate format t depth b4) (simp append_assoc)
                            l.ready;
                    })
                    (Elements-Done next ((text ++ p.out) ++ comma format next) depth b3 n.1 r3)

      Members-Done :
          (c : Children D) (text : Bytes) (depth : ℕ) (b : PrintBuffer)
          → NulFreeAll c
          → Ready reallocate format text depth b
          → Returns
              (Printed
                (LoopDone doubles libc reallocate format (Members doubles libc format) c text depth)
                b)
              (print_members doubles libc grant reallocate fresh c b)
      Members-Done nil text depth b n r = returns (
          printed (record { out = []; prints = no_member; ready = rw (append-nil text) r })
            (Follows-refl b))
      Members-Done (cons x next) text depth b n r =
          let key = quoted (string x) in
          let tab = tabs format depth in
          Printed-bind (indent-Ready grant reallocate fresh format text depth b r) λ b1 r1.
            Printed-bind
              (print_string_ptr-Done grant reallocate fresh format (text ++ tab) depth (string x) b1
                r1 (NulFree-string doubles libc reallocate format grant fresh x n.0))
              λ b2 k. Done-bind reallocate format (text ++ tab) key depth b2 k λ b3 r3.
                Printed-bind
                  (colon-Ready grant reallocate fresh format ((text ++ tab) ++ key) depth b3 r3)
                  λ b4 r4.
                    Printed-bind
                      (value-Done x (((text ++ tab) ++ key) ++ before_value format) depth b4 n.0 r4)
                      λ b5 p.
                        Done-bind reallocate format (((text ++ tab) ++ key) ++ before_value format)
                          p.out depth b5 p.done
                          λ b6 r6.
                            Printed-bind
                              (end_member-Ready grant reallocate fresh format
                                ((((text ++ tab) ++ key) ++ before_value format) ++ p.out) depth
                                next b6 r6)
                              λ b7 r7.
                                Printed-map
                                  (λ b8 l. record {
                                    out =
                                        ((((tab ++ key) ++ before_value format) ++ p.out)
                                          ++ behind_value format next)
                                        ++ l.out;
                                    prints = member p.prints l.prints;
                                    ready =
                                        subst (λ t. Ready reallocate format t depth b8)
                                          (simp append_assoc) l.ready;
                                  })
                                  (Members-Done next _ depth b7 n.1 r7)

    -- On a tree without nuls in its texts, and behind the text of a buffer that is ready for more, whose
    -- block is not empty, or may be reallocated, or is not to grow, `print_value` writes a text that the
    -- grammar has for the item at the buffer's depth, and a nul, within the block, or stops.
    pub print_value-Done :
        (x : CJson D) (text : Bytes) (depth : ℕ) (b : PrintBuffer)
        → NulFree x
        → Ready reallocate format text depth b
        → Returns
            (Printed (ValueDone doubles libc reallocate format x text depth) b)
            (print_value doubles libc grant reallocate fresh x b)
    print_value-Done = value-Done
