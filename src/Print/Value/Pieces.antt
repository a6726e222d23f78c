-- ===== src/Print/Value/Pieces.antt =====
-- src/print.rs: the punctuation of arrays and objects.
use rust_json_port_mortem.Base.{
  ℕ, zero, suc, ◌∙◌, ◌+◌, ◌-◌, ◌≤◌, ◌≡◌, refl, ap, sym, Bool, true, false, [], ◌∷◌, ◌++◌,
  append-nil, append_assoc, arith, ok, Returns, returns, length, length-append, replicate,
  length-replicate,
}
use rust_json_port_mortem.Model.{Bytes, Children, nil, cons}
use rust_json_port_mortem.Alloc.{Grant}
use rust_json_port_mortem.Manip.Lookup.Found.{NoNul}
use rust_json_port_mortem.Print.Buffer.{PrintBuffer, put, or_return}
use rust_json_port_mortem.Print.Buffer.Grow.{Follows-refl}
use rust_json_port_mortem.Print.Value.{
  separate, indent, colon, end_member, open_array, close_array, open_object, close_object,
}
use rust_json_port_mortem.Print.Grammar.{comma, tabs, before_value, behind_value, brace}
use rust_json_port_mortem.Print.Written.{
  Printed, printed, Printed-bind, Printed-move, Ready, Done, put-Put, Put-Ready, Put-Done,
  Ready-depth, Done-depth,
}

module _ (grant : Grant) (reallocate : Bool) (fresh : ℕ → ℕ → ℕ) where
  -- Bytes behind the text, which the offset passes but for `rest`.
  put-Ready :
      (format : Bool) (f : ℕ → ℕ) (count : ℕ) (text cs rest : Bytes) (depth n : ℕ) (b : PrintBuffer)
      → Ready reallocate format text depth b
      → length (cs ++ rest) ≤ count
      → n ≡ length cs
      → Returns (Printed (Ready reallocate format (text ++ cs) (f depth)) b) (
          or_return
            (put grant reallocate fresh count (cs ++ rest) b)
            λ b'. ok (true, record b' { offset = b'.offset + n; depth = f b'.depth }))
  put-Ready format f count text cs rest depth n b r room e =
      Printed-bind (put-Put reallocate format grant fresh count text (cs ++ rest) depth b r room)
        λ b' p.
          let q = Put-Ready reallocate format text cs rest depth n b' p e in
          Printed-move b' (b'.offset + n) (f b'.depth) (
            Ready-depth reallocate format (text ++ cs) depth (f b'.depth) (f depth)
              (record b' { offset = b'.offset + n }) (ap f p.depth_is) q)

  -- The comma between elements
  pub separate-Ready :
      {D : Type 0} (format : Bool) (text : Bytes) (depth : ℕ) (next : Children D) (b : PrintBuffer)
      → Ready reallocate format text depth b
      → Returns
          (Printed (Ready reallocate format (text ++ comma format next) depth) b)
          (separate grant reallocate fresh next b)
  unfolding separate
  separate-Ready format text depth nil b r =
      returns (printed (rw (append-nil text) r) (Follows-refl b))
  separate-Ready true text depth (cons x next) b r =
      simp r.format_is
        (put-Ready true (λ d. d) 3 text (b',' ∷ b' ' ∷ []) (0 ∷ []) depth 2 b r (omega arith) refl)
  separate-Ready false text depth (cons x next) b r =
      simp r.format_is
        (put-Ready false (λ d. d) 2 text (b',' ∷ []) (0 ∷ []) depth 1 b r (omega arith) refl)

  -- The tabs before a key
  pub indent-Ready :
      (format : Bool) (text : Bytes) (depth : ℕ) (b : PrintBuffer)
      → Ready reallocate format text depth b
      → Returns
          (Printed (Ready reallocate format (text ++ tabs format depth) depth) b)
          (indent grant reallocate fresh b)
  unfolding indent
  indent-Ready false text depth b r =
      simp r.format_is (returns (printed (rw (append-nil text) r) (Follows-refl b)))
  indent-Ready true text depth b r =
      let pad : Bytes = replicate depth b'\t' in
      let wide : length pad ≡ depth = length-replicate depth b'\t' in
      simp (r.format_is, r.depth_is)
        (Printed-bind
          (put-Put reallocate true grant fresh depth text pad depth b r (omega (arith, wide)))
          λ b' p. Printed-move b' (b'.offset + b'.depth) b'.depth (
            Put-Ready reallocate true text pad [] depth b'.depth b' (rw (append-nil pad) p)
              (p.depth_is ∙ sym wide)))

  -- The colon behind a key
  pub colon-Ready :
      (format : Bool) (text : Bytes) (depth : ℕ) (b : PrintBuffer)
      → Ready reallocate format text depth b
      → Returns
          (Printed (Ready reallocate format (text ++ before_value format) depth) b)
          (colon grant reallocate fresh b)
  unfolding colon
  colon-Ready true text depth b r =
      simp r.format_is
        (put-Ready true (λ d. d) 2 text (b':' ∷ b'\t' ∷ []) [] depth 2 b r (omega arith) refl)
  colon-Ready false text depth b r =
      simp r.format_is
        (put-Ready false (λ d. d) 1 text (b':' ∷ []) [] depth 1 b r (omega arith) refl)

  -- The comma and the line's end behind a member
  pub end_member-Ready :
      {D : Type 0} (format : Bool) (text : Bytes) (depth : ℕ) (next : Children D) (b : PrintBuffer)
      → Ready reallocate format text depth b
      → Returns
          (Printed (Ready reallocate format (text ++ behind_value format next) depth) b)
          (end_member grant reallocate fresh next b)
  unfolding end_member
  end_member-Ready true text depth nil b r =
      simp r.format_is
        (put-Ready true (λ d. d) 2 text (b'\n' ∷ []) (0 ∷ []) depth 1 b r (omega arith) refl)
  end_member-Ready true text depth (cons x next) b r =
      simp r.format_is
        (put-Ready true (λ d. d) 3 text (b',' ∷ b'\n' ∷ []) (0 ∷ []) depth 2 b r (omega arith) refl)
  end_member-Ready false text depth nil b r =
      simp r.format_is (put-Ready false (λ d. d) 1 text [] (0 ∷ []) depth 0 b r (omega arith) refl)
  end_member-Ready false text depth (cons x next) b r =
      simp r.format_is
        (put-Ready false (λ d. d) 2 text (b',' ∷ []) (0 ∷ []) depth 1 b r (omega arith) refl)

  pub open_array-Ready :
      (format : Bool) (text : Bytes) (depth : ℕ) (b : PrintBuffer)
      → Ready reallocate format text depth b
      → Returns
          (Printed (Ready reallocate format (text ++ b'[' ∷ []) (depth + 1)) b)
          (open_array grant reallocate fresh b)
  unfolding open_array
  open_array-Ready format text depth b r =
      put-Ready format (λ d. d + 1) 1 text (b'[' ∷ []) [] depth 1 b r (omega arith) refl

  pub open_object-Ready :
      (format : Bool) (text : Bytes) (depth : ℕ) (b : PrintBuffer)
      → Ready reallocate format text depth b
      → Returns
          (Printed (Ready reallocate format (text ++ brace format) (depth + 1)) b)
          (open_object grant reallocate fresh b)
  unfolding open_object
  open_object-Ready true text depth b r =
      simp r.format_is
        (put-Ready true (λ d. d + 1) 3 text (b'{' ∷ b'\n' ∷ []) [] depth 2 b r (omega arith) refl)
  open_object-Ready false text depth b r =
      simp r.format_is
        (put-Ready false (λ d. d + 1) 2 text (b'{' ∷ []) [] depth 1 b r (omega arith) refl)

  -- Bytes that end a value, behind what the offset has passed of it.
  put-Done :
      (format : Bool) (count : ℕ) (text front rest : Bytes) (depth : ℕ) (b : PrintBuffer)
      → Ready reallocate format (text ++ front) (depth + 1) b
      → length rest + 1 ≤ count
      → NoNul rest
      → Returns (Printed (Done reallocate format text (front ++ rest) depth) b) (
          or_return
            (put grant reallocate fresh count (rest ++ 0 ∷ []) b)
            λ b'. ok (true, record b' { depth = b'.depth - 1 }))
  put-Done format count text front rest depth b r room n =
      Printed-bind
        (put-Put reallocate format grant fresh count (text ++ front) (rest ++ 0 ∷ []) (depth + 1) b
          r (omega (arith, length-append rest (0 ∷ []))))
        λ b' p. Printed-move b' b'.offset (b'.depth - 1) (
          Done-depth reallocate format text (front ++ rest) (depth + 1) (b'.depth - 1) depth b'
            (omega (arith, p.depth_is))
            (Put-Done reallocate format text front rest (depth + 1) b' p n))

  pub close_array-Done :
      (format : Bool) (text front : Bytes) (depth : ℕ) (b : PrintBuffer)
      → Ready reallocate format (text ++ front) (depth + 1) b
      → Returns
          (Printed (Done reallocate format text (front ++ b']' ∷ []) depth) b)
          (close_array grant reallocate fresh b)
  unfolding close_array
  close_array-Done format text front depth b r =
      put-Done format 2 text front (b']' ∷ []) depth b r (omega arith) ((λ e. cc e), tt)

  NoNul-tabs : (n : ℕ) (rest : Bytes) → NoNul rest → NoNul (replicate n b'\t' ++ rest)
  NoNul-tabs zero rest h = h
  NoNul-tabs (suc n) rest h = ((λ e. cc e), NoNul-tabs n rest h)

  pub close_object-Done :
      (format : Bool) (text front : Bytes) (depth : ℕ) (b : PrintBuffer)
      → Ready reallocate format (text ++ front) (depth + 1) b
      → Returns
          (Printed
            (Done reallocate format text (front ++ (tabs format depth ++ b'}' ∷ [])) depth)
            b)
          (close_object grant reallocate fresh b)
  unfolding close_object
  close_object-Done true text front depth b r =
      let e : depth + 1 - 1 ≡ depth = omega arith in
      let pad : Bytes = replicate depth b'\t' in
      simp (r.format_is, r.depth_is, e)
        (rw (← append_assoc pad (b'}' ∷ []) (0 ∷ [])) (
          put-Done true (depth + 1 + 1) text front (pad ++ b'}' ∷ []) depth b r
            (omega (arith, length-append pad (b'}' ∷ []), length-replicate {0} {A = ℕ} depth b'\t'))
            (NoNul-tabs depth (b'}' ∷ []) ((λ e. cc e), tt))))
  close_object-Done false text front depth b r =
      simp r.format_is
        (put-Done false 2 text front (b'}' ∷ []) depth b r (omega arith) ((λ e. cc e), tt))
