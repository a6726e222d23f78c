-- ===== src/Print/Written.antt =====
-- src/print.rs: what the steps of the printer leave in the buffer, and how they follow one another.
use rust_json_port_mortem.Base.{
  ℕ, ◌+◌, ◌≤◌, ◌≡◌, refl, sym, ap, subst, ◌∙◌, Bool, true, false, [], ◌∷◌, ◌++◌, append_assoc,
  append-nil, arith, Outcome, ok, ◌>>=◌, Returns, returns, Returns-bind, Returns-mono, length,
  length-append,
}
use rust_json_port_mortem.Model.{Bytes}
use rust_json_port_mortem.Alloc.{Grant}
use rust_json_port_mortem.Manip.Lookup.Found.{NoNul}
use rust_json_port_mortem.Print.Buffer.{PrintBuffer, write, update_offset, ensure, put, or_return}
use rust_json_port_mortem.Print.Buffer.Room.{
  Has, Has-left, SameBut, Wrote, write-Wrote, update_offset-Moved,
}
use rust_json_port_mortem.Print.Buffer.Grow.{
  Follows, Follows-trans, Follows-move, Grows, Ensured, room, refused, ensure-Ensured,
}

-- A step that goes on in a state with this property, or that returns 0.
pub data Printed {ℓ} (Q : PrintBuffer → Type ℓ) (b : PrintBuffer)
    : Bool × PrintBuffer → Type ℓ where
  printed : {b' : PrintBuffer} → Q b' → Follows b b' → Printed Q b (true, b')
  stopped : {b' : PrintBuffer} → Follows b b' → Printed Q b (false, b')

pub Printed-after {ℓ} :
    {Q : PrintBuffer → Type ℓ} (b c : PrintBuffer)
    → Follows b c
    → (r : Bool × PrintBuffer) → Printed Q c r
    → Printed Q b r
Printed-after b c f _ (printed q g) = printed q (Follows-trans f g)
Printed-after b c f _ (stopped g) = stopped (Follows-trans f g)

pub Printed-bind {ℓ κ} :
    {Q : PrintBuffer → Type ℓ} {R : PrintBuffer → Type κ} {b : PrintBuffer}
    {m : Outcome (Bool × PrintBuffer)} {k : PrintBuffer → Outcome (Bool × PrintBuffer)}
    → Returns (Printed Q b) m
    → ((b' : PrintBuffer) → Q b' → Returns (Printed R b') (k b'))
    → Returns (Printed R b) (or_return m k)
Printed-bind {R = R} (returns (printed {b'} q f)) next =
    Returns-mono (next b' q) (λ r p. Printed-after {Q = R} _ b' f r p)
Printed-bind (returns (stopped f)) next = returns (stopped f)

pub Printed-map {ℓ κ} :
    {Q : PrintBuffer → Type ℓ} {R : PrintBuffer → Type κ} {b : PrintBuffer}
    {m : Outcome (Bool × PrintBuffer)}
    → ((b' : PrintBuffer) → Q b' → R b')
    → Returns (Printed Q b) m
    → Returns (Printed R b) m
Printed-map weaken (returns (printed {b'} q f)) = returns (printed (weaken b' q) f)
Printed-map weaken (returns (stopped f)) = returns (stopped f)

pub Printed-move {ℓ} :
    {Q : PrintBuffer → Type ℓ} (b : PrintBuffer) (o d : ℕ)
    → Q (record b { offset = o; depth = d })
    → Returns (Printed Q b) (ok (true, record b { offset = o; depth = d }))
Printed-move b o d q = returns (printed q (Follows-move b o d))

-- The same text in another buffer: what `Follows` needs where a block stays.
SameBut-Follows :
    {s t : Bytes} (b b' : PrintBuffer) → Has s b → Has t b' → SameBut b b' → Follows b b'
SameBut-Follows b b' h h' same = record {
  noalloc = same.noalloc;
  format = same.format;
  balance = rw h.is (rw h'.is (rw same.memory (omega arith)));
  fixed = λ e. (same.length, same.memory);
}

Has-same :
    {text : Bytes} (b b' : PrintBuffer)
    → b'.buffer ≡ b.buffer
    → b'.length ≡ b.length
    → Has text b
    → Has text b'
Has-same b b' e l h = record {
  block = h.block;
  is = e ∙ h.is;
  size = h.size ∙ sym l;
  holds = h.holds;
  fits = omega (arith, l, h.fits);
}

module _ (reallocate format : Bool) where
  -- The buffer has this text and no more before its offset.
  pub record Ready (text : Bytes) (depth : ℕ) (b : PrintBuffer) : Type 0 where
    pub has : Has text b
    pub offset : b.offset ≡ length text
    pub depth_is : b.depth ≡ depth
    pub format_is : b.format ≡ format
    pub grows : Grows reallocate b

  -- Bytes stand behind that text, which the offset has not passed.
  pub record Put (text cs : Bytes) (depth : ℕ) (b : PrintBuffer) : Type 0 where
    pub has : Has (text ++ cs) b
    pub offset : b.offset ≡ length text
    pub depth_is : b.depth ≡ depth
    pub format_is : b.format ≡ format
    pub grows : Grows reallocate b

  -- The text `out` and a nul stand behind the text, and the offset has passed a part of it.
  pub record Done (text out : Bytes) (depth : ℕ) (b : PrintBuffer) : Type 0 where
    pub front : Bytes
    pub rest : Bytes
    pub split : out ≡ front ++ rest
    pub nul_free : NoNul rest
    pub has : Has (((text ++ front) ++ rest) ++ 0 ∷ []) b
    pub offset : b.offset ≡ length (text ++ front)
    pub depth_is : b.depth ≡ depth
    pub format_is : b.format ≡ format
    pub grows : Grows reallocate b

  -- The stores behind a text.
  pub Wrote-Put :
      (text cs : Bytes) (depth : ℕ) (b b' : PrintBuffer)
      → Ready text depth b
      → Wrote text cs b b'
      → Printed (Put text cs depth) b (true, b')
  Wrote-Put text cs depth b b' r w =
      printed
        (record {
          has = w.has;
          offset = w.offset ∙ r.offset;
          depth_is = w.same.depth ∙ r.depth_is;
          format_is = w.same.format ∙ r.format_is;
          grows = λ e. rw w.same.noalloc (r.grows (sym w.same.length ∙ e));
        })
        (SameBut-Follows b b' r.has w.has w.same)

  pub write-Put :
      (text cs : Bytes) (depth : ℕ) (b : PrintBuffer)
      → Ready text depth b
      → b.offset + length cs ≤ b.length
      → Returns (Printed (Put text cs depth) b) (write b.offset cs b >>= λ b'. ok (true, b'))
  write-Put text cs depth b r fits =
      Returns-bind (write-Wrote text cs b.offset b r.has r.offset fits)
        λ b' w. returns (Wrote-Put text cs depth b b' r w)

  module _ (grant : Grant) (fresh : ℕ → ℕ → ℕ) where
    -- The state behind an `ensure` that gave room.
    pub record Roomy (count : ℕ) (text : Bytes) (depth : ℕ) (b : PrintBuffer) : Type 0 where
      pub ready : Ready text depth b
      pub fits : b.offset + count + 1 ≤ b.length

    Ensured-Roomy :
        (count : ℕ) (text : Bytes) (depth : ℕ) (b : PrintBuffer)
        → Ready text depth b
        → (r : Bool × PrintBuffer) → Ensured reallocate count text b r
        → Printed (Roomy count text depth) b r
    Ensured-Roomy count text depth b r _ (refused f) = stopped f
    Ensured-Roomy count text depth b r _ (room {b'} h o d fits grows f) =
        printed
          (record {
            ready = record {
              has = h;
              offset = o ∙ r.offset;
              depth_is = d ∙ r.depth_is;
              format_is = f.format ∙ r.format_is;
              grows = grows;
            };
            fits = omega (arith, o, fits);
          })
          f

    pub ensure-Roomy :
        (count : ℕ) (text : Bytes) (depth : ℕ) (b : PrintBuffer)
        → Ready text depth b
        → Returns (Printed (Roomy count text depth) b) (ensure grant reallocate fresh count b)
    ensure-Roomy count text depth b r =
        Returns-mono (ensure-Ensured grant reallocate fresh text b r.has r.offset count r.grows)
          (Ensured-Roomy count text depth b r)

    pub put-Put :
        (count : ℕ) (text cs : Bytes) (depth : ℕ) (b : PrintBuffer)
        → Ready text depth b
        → length cs ≤ count
        → Returns (Printed (Put text cs depth) b) (put grant reallocate fresh count cs b)
    unfolding put
    put-Put count text cs depth b r small =
        Printed-bind (ensure-Roomy count text depth b r)
          λ b' o. write-Put text cs depth b' o.ready (omega (arith, o.fits))

  -- The offset passes what was put.
  pub Put-Ready :
      (text cs rest : Bytes) (depth n : ℕ) (b : PrintBuffer)
      → Put text (cs ++ rest) depth b
      → n ≡ length cs
      → Ready (text ++ cs) depth (record b { offset = b.offset + n })
  Put-Ready text cs rest depth n b p e = record {
    has =
        Has-left (text ++ cs) rest (record b { offset = b.offset + n })
          (Has-same b (record b { offset = b.offset + n }) refl refl
            (subst (λ t. Has t b) (sym (append_assoc text cs rest)) p.has));
    offset = omega (arith, p.offset, length-append text cs);
    depth_is = p.depth_is;
    format_is = p.format_is;
    grows = p.grows;
  }

  pub Ready-depth :
      (text : Bytes) (depth d d' : ℕ) (b : PrintBuffer)
      → d ≡ d'
      → Ready text depth b
      → Ready text d' (record b { depth = d })
  Ready-depth text depth d d' b e r = record {
    has = Has-same b (record b { depth = d }) refl refl r.has;
    offset = r.offset;
    depth_is = e;
    format_is = r.format_is;
    grows = r.grows;
  }

  -- The end of a value, whose start the offset has passed.
  pub Put-Done :
      (text front rest : Bytes) (depth : ℕ) (b : PrintBuffer)
      → Put (text ++ front) (rest ++ 0 ∷ []) depth b
      → NoNul rest
      → Done text (front ++ rest) depth b
  Put-Done text front rest depth b p n = record {
    front = front;
    rest = rest;
    split = refl;
    nul_free = n;
    has = subst (λ t. Has t b) (sym (append_assoc (text ++ front) rest (0 ∷ []))) p.has;
    offset = p.offset;
    depth_is = p.depth_is;
    format_is = p.format_is;
    grows = p.grows;
  }

  pub Done-depth :
      (text out : Bytes) (depth d d' : ℕ) (b : PrintBuffer)
      → d ≡ d'
      → Done text out depth b
      → Done text out d' (record b { depth = d })
  Done-depth text out depth d d' b e r = record {
    front = r.front;
    rest = r.rest;
    split = r.split;
    nul_free = r.nul_free;
    has = Has-same b (record b { depth = d }) refl refl r.has;
    offset = r.offset;
    depth_is = e;
    format_is = r.format_is;
    grows = r.grows;
  }

  -- A value that the offset has passed nothing of.
  pub Put-Done_whole :
      (text out : Bytes) (depth : ℕ) (b : PrintBuffer)
      → Put text (out ++ 0 ∷ []) depth b
      → NoNul out
      → Done text out depth b
  Put-Done_whole text out depth b p n = Put-Done text [] out depth b (rw (append-nil text) p) n

  -- A value that the offset has passed.
  pub Put-Done_passed :
      (text out : Bytes) (depth n : ℕ) (b : PrintBuffer)
      → Put text (out ++ 0 ∷ []) depth b
      → n ≡ length out
      → Done text out depth (record b { offset = b.offset + n })
  Put-Done_passed text out depth n b p e = record {
    front = out;
    rest = [];
    split = sym (append-nil out);
    nul_free = tt;
    has =
        Has-same b (record b { offset = b.offset + n }) refl refl
          (rw (append-nil (text ++ out)) (rw (append_assoc text out (0 ∷ [])) p.has));
    offset = omega (arith, p.offset, length-append text out);
    depth_is = p.depth_is;
    format_is = p.format_is;
    grows = p.grows;
  }

  -- `update_offset` behind a value, and what follows it.
  pub Done-bind {ℓ} :
      {R : PrintBuffer → Type ℓ} (text out : Bytes) (depth : ℕ) (b : PrintBuffer)
      {k : PrintBuffer → Outcome (Bool × PrintBuffer)}
      → Done text out depth b
      → ((b' : PrintBuffer) → Ready (text ++ out) depth b' → Returns (Printed R b') (k b'))
      → Returns (Printed R b) (update_offset b >>= k)
  Done-bind {R = R} text out depth b d next =
      Returns-bind (update_offset-Moved (text ++ d.front) d.rest b d.nul_free d.has d.offset)
        λ b' m.
          let whole : (text ++ d.front) ++ d.rest ≡ text ++ out =
            append_assoc text d.front d.rest ∙ ap (λ t. text ++ t) (sym d.split) in
          Returns-mono
            (next b' (record {
              has =
                  subst (λ t. Has t b') whole
                    (Has-left ((text ++ d.front) ++ d.rest) (0 ∷ []) b' m.has);
              offset = m.offset ∙ ap length whole;
              depth_is = m.same.depth ∙ d.depth_is;
              format_is = m.same.format ∙ d.format_is;
              grows = λ e. rw m.same.noalloc (d.grows (sym m.same.length ∙ e));
            }))
            (λ r p. Printed-after {Q = R} b b' (SameBut-Follows b b' d.has m.has m.same) r p)
