-- ===== src/Parse/Text/Loop.antt =====
-- src/parse.rs: what the second loop of `parse_string` writes.
use rust_json_port_mortem.Base.{
  ℕ, zero, suc, ◌+◌, ◌-◌, ◌≤◌, ◌<◌, ◌≡◌, refl, ◌≢◌, Option, none, some, [], ◌∷◌, ◌++◌, append_assoc,
  append-nil, arith, Returns, returns, Returns-bind, Returns-mono, Bool-cases, ◌==◌, match_option,
  lt→ltb, ge→ltb, length, length-append, inl, inr, ◌⊎◌, ok, le→leb, sym, ◌∙◌, ◌>>=◌,
}
use native.Mathlib.Decide.{dec_lt}
use rust_json_port_mortem.Model.{Bytes}
use rust_json_port_mortem.Parse.State.{Input, read-ok}
use rust_json_port_mortem.Parse.Text.{write_bytes, copy_loop}
use rust_json_port_mortem.Parse.Text.Copy.{
  Within, inside, past, Within-fits, Within-plain, Within-literal, Within-one, Escape, one, literal,
  invalid, no_literal, escape_sequence-Escape,
}

module _ (i : Input) (e : ℕ) where
  -- What the loop copies from `p` to `q`: a plain byte for itself, and an escape for what it stands
  -- for.
  pub data Copies : ℕ → ℕ → Bytes → Type 0 where
    done : {p q : ℕ} {bs : Bytes} → p ≡ q → bs ≡ [] → Copies p q bs
    byte :
        {p q : ℕ} {bs cs : Bytes}
        → i.content p ≢ 92
        → p < e
        → Copies (p + 1) q cs
        → bs ≡ i.content p ∷ cs
        → Copies p q bs
    escape :
        {p q n : ℕ} {ds bs cs : Bytes}
        → i.content p ≡ 92
        → p < e
        → Escape i e p (some (n, ds))
        → Copies (p + n) q cs
        → bs ≡ ds ++ cs
        → Copies p q bs

  -- The loop ends behind the last byte, or at an escape that stands for nothing.
  abbrev pub Stops : ℕ → Type 0
  Stops q = (e ≤ q) ⊎ ((q < e) × (i.content q ≡ 92) × Escape i e q none)

  module _ (first skips : ℕ) where
    pub record Copied (p : ℕ) (out : Bytes) (r : ℕ × Bytes) : Type 0 where
      pub bytes : Bytes
      pub output : r.1 ≡ out ++ bytes
      pub copies : Copies p r.0 bytes
      pub stops : Stops r.0
      pub from : p ≤ r.0
      pub fits : length r.1 + skips + first ≤ e
      pub within : r.0 ≤ e + 1

    Copied-byte :
        (p : ℕ) (out : Bytes) (r : ℕ × Bytes)
        → i.content p ≢ 92
        → p < e
        → Copied (p + 1) (out ++ i.content p ∷ []) r
        → Copied p out r
    Copied-byte p out r n h c = record {
      bytes = i.content p ∷ c.bytes;
      output = c.output ∙ append_assoc out (i.content p ∷ []) c.bytes;
      copies = byte n h c.copies refl;
      stops = c.stops;
      from = omega (arith, c.from);
      fits = c.fits;
      within = c.within;
    }

    Copied-Escape :
        (p n : ℕ) (out ds : Bytes) (r : ℕ × Bytes)
        → i.content p ≡ 92
        → p < e
        → Escape i e p (some (n, ds))
        → Copied (p + n) (out ++ ds) r
        → Copied p out r
    Copied-Escape p n out ds r b h x c = record {
      bytes = ds ++ c.bytes;
      output = c.output ∙ append_assoc out ds c.bytes;
      copies = escape b h x c.copies refl;
      stops = c.stops;
      from = omega (arith, c.from);
      fits = c.fits;
      within = c.within;
    }

    -- Where the loop stands behind an escape.
    abbrev Advanced : ℕ → Bytes → Option (ℕ × Bytes) → Type 0
    Advanced p out none = Unit
    Advanced p out (some (n, ds)) = Within i e first skips (p + n) (out ++ ds) × (0 < n)

    Within-Escape :
        (p : ℕ) (out : Bytes) (o : Option (ℕ × Bytes))
        → i.content p ≡ 92
        → p < e
        → Escape i e p o
        → Within i e first skips p out
        → Advanced p out o
    Within-Escape p out _ b h (one c u is) w =
        rw is (Within-one i e first skips p c out b h w, omega arith)
    Within-Escape p out _ b h (literal {n} {bs} u l) w =
        Within-literal i e first skips p n out bs l h w
    Within-Escape p out _ b h (invalid u v) w = tt
    Within-Escape p out _ b h (no_literal u l) w = tt

    module _ (size : ℕ) (room : size + skips + first ≡ e + 2) (closes : e < i.length) where
      -- A write that the next state describes fits into the block.
      write_bytes-ok :
          (out bs : Bytes) {q : ℕ}
          → Within i e first skips q (out ++ bs)
          → write_bytes size out bs ≡ ok (out ++ bs)
      unfolding write_bytes
      write_bytes-ok out bs w = rw (
          le→leb (length out + length bs) size
            (omega (arith, Within-fits i e w, length-append out bs)))

      stop_here :
          (p : ℕ) (out : Bytes) → Within i e first skips p out → Stops p → Copied p out (p, out)
      stop_here p out w st = record {
        bytes = [];
        output = sym (append-nil out);
        copies = done refl refl;
        stops = st;
        from = omega arith;
        fits = Within-fits i e w;
        within = below w;
      }
        where
          below : Within i e first skips p out → p ≤ e + 1
          below (inside k h s b) = omega arith
          below (past h b) = omega arith

      -- The round that reads an escape, from the rounds that follow it.
      escaped :
          (f p : ℕ) (out : Bytes)
          → Within i e first skips p out
          → p < e
          → i.content p ≡ 92
          → ((q : ℕ) (out' : Bytes)
              → p < q
              → Within i e first skips q out'
              → Returns (Copied q out') (copy_loop i f size e q out'))
          → (o : Option (ℕ × Bytes)) → Escape i e p o
          → Advanced p out o
          → Returns (Copied p out) (
              match_option o (ok (p, out)) λ (sequence_length, bytes).
                write_bytes size out bytes >>= λ output'.
                copy_loop i f size e (p + sequence_length) output')
      escaped f p out w h b rest none x a = returns (stop_here p out w (inr (h, b, x)))
      escaped f p out w h b rest (some (n, ds)) x a = rw (write_bytes-ok out ds a.0) (
          Returns-mono (rest (p + n) (out ++ ds) (omega (arith, a.1)) a.0)
            λ r c. Copied-Escape p n out ds r b h x c)

      pub copy_loop-Copied :
          (f p : ℕ) (out : Bytes)
          → e - p < f
          → Within i e first skips p out
          → Returns (Copied p out) (copy_loop i f size e p out)
      unfolding copy_loop
      copy_loop-Copied zero p out fuel w = absurd (omega arith)
      copy_loop-Copied (suc f) p out fuel w = elim (dec_lt p e) [
        | no h ↦ rw (ge→ltb p e (omega arith)) (returns (stop_here p out w (inl (omega arith))))
        | yes h ↦
            rw (lt→ltb p e h, read-ok i p (omega arith))
              (elim (Bool-cases (i.content p == 92)) [
                | inl b ↦ rw b (
                    Returns-bind (escape_sequence-Escape i e p (omega arith) (omega arith)) λ o x.
                      escaped f p out w h (ground arith)
                        (λ q out' lt w'. copy_loop-Copied f q out' (omega arith) w') o x
                        (Within-Escape p out o (ground arith) h x w))
                | inr b ↦
                    let w' = Within-plain i e first skips p out (i.content p) h (ground arith) w in
                    rw (b, write_bytes-ok out (i.content p ∷ []) w')
                      (Returns-mono (copy_loop-Copied f (p + 1) _ (omega arith) w')
                        λ r c. Copied-byte p out r (ground arith) h c)
              ])
      ]
