-- ===== src/Parse/Text/Copy.antt =====
-- src/parse.rs: the second loop of `parse_string` stays within the block that was allocated.
use rust_json_port_mortem.Base.{
  ℕ, ◌+◌, ◌≤◌, ◌<◌, ◌≡◌, refl, ◌≢◌, Option, none, some, [], ◌∷◌, ◌++◌, arith, Returns, returns,
  Returns-mono, Bool-cases, Option-cases, ◌==◌, length, length-append, inl, inr, subst, ◌⊎◌,
}
use native.Mathlib.Decide.{dec_lt}
use rust_json_port_mortem.Model.{Bytes}
use rust_json_port_mortem.Parse.State.{Input, read-ok}
use rust_json_port_mortem.Parse.Text.{unescape, escape_sequence}
use rust_json_port_mortem.Parse.Text.Scan.{Tail, quote, plain, pair, Tail-room}
use rust_json_port_mortem.Parse.Utf16.Literal.{
  IsLiteral, utf16_literal_to_utf8-IsLiteral, IsLiteral-Shape,
}

-- The byte that a letter behind a backslash stands for, as RFC 8259 has it.
abbrev pub StandsFor : ℕ → ℕ → Type 0
StandsFor c b =
    ((c ≡ b'b') × (b ≡ 8))
    ⊎ ((c ≡ b'f') × (b ≡ 12))
    ⊎ ((c ≡ b'n') × (b ≡ 10))
    ⊎ ((c ≡ b'r') × (b ≡ 13))
    ⊎ ((c ≡ b't') × (b ≡ 9))
    ⊎ ((c ≡ 34) × (b ≡ 34))
    ⊎ ((c ≡ 92) × (b ≡ 92))
    ⊎ ((c ≡ b'/') × (b ≡ b'/'))

unescape-StandsFor : (c b : ℕ) → unescape c ≡ some b → StandsFor c b
unfolding unescape
unescape-StandsFor c b h = ground arith

unescape-none : (c : ℕ) → unescape c ≡ none → (b : ℕ) → ¬ StandsFor c b
unfolding unescape
unescape-none c h b s = ground arith

module _ (i : Input) (e : ℕ) where
  -- The copy reads escapes where it meets them, and the scan skipped pairs. After a `\u` with four
  -- bytes that are no digits the copy may stand in the middle of a pair: the scan is then ahead of it
  -- by a byte.
  pub data Sync (p k : ℕ) : Type 0 where
    level : Tail i e p k → Sync p k
    ahead : Tail i e (p + 1) k → Sync p k

  pub Sync-room : {p k : ℕ} → Sync p k → p + k ≤ e
  Sync-room (level t) = omega (arith, Tail-room i t)
  Sync-room (ahead t) = omega (arith, Tail-room i t)

  Sync-plain : {p k : ℕ} → p < e → i.content p ≢ 92 → Sync p k → Sync (p + 1) k
  Sync-plain h n (level (quote a b c d)) = absurd (omega arith)
  Sync-plain h n (level (plain a b c t)) = level t
  Sync-plain h n (level (pair a b c t)) = absurd (n b)
  Sync-plain h n (ahead t) = level t

  second :
      (p : ℕ) {k : ℕ} → p + 1 < e → Tail i e (p + 1) k → (j : ℕ) × Sync (p + 1 + 1) j × (k ≤ j + 1)
  second p h (quote a b c d) = absurd (omega arith)
  second p {k} h (plain a b c t) = (k, level t, omega arith)
  second p h (pair {j} a b c t) = (j, ahead t, omega arith)

  Sync-two : {p k : ℕ} → p + 1 < e → Sync p k → (j : ℕ) × Sync (p + 1 + 1) j × (k ≤ j + 1)
  Sync-two h (level (quote a b c d)) = absurd (omega arith)
  Sync-two h (level (plain a b c t)) = second _ h t
  Sync-two h (level (pair {j} a b c t)) = (j, level t, omega arith)
  Sync-two h (ahead t) = second _ h t

  at : {p q k : ℕ} → Sync p k → p ≡ q → Sync q k
  at {k} s eq = subst (λ x. Sync x k) eq s

  -- Where the copy stands, and what it has written: with `skips` pairs in all, a byte is saved for each
  -- pair that it has passed.
  pub data Within (first skips : ℕ) (p : ℕ) (out : Bytes) : Type 0 where
    inside :
        (k : ℕ) → p ≤ e → Sync p k → length out + skips + first ≤ p + k → Within first skips p out
    past : p ≡ e + 1 → length out + skips + first ≤ e → Within first skips p out

  pub Within-fits :
      {first skips p : ℕ} {out : Bytes} → Within first skips p out → length out + skips + first ≤ e
  Within-fits (inside k h s b) = omega (arith, Sync-room s)
  Within-fits (past h b) = b

  Sync-six : {p k : ℕ} → p + 6 ≤ e → Sync p k → (j : ℕ) × Sync (p + 6) j × (k ≤ j + 3)
  Sync-six h s =
      let (a, s', x) = Sync-two (omega arith) s in
      let (b, s'', y) = Sync-two (omega arith) s' in
      let (c, s3, z) = Sync-two (omega arith) s'' in (c, at s3 (omega arith), omega arith)

  Sync-twelve : {p k : ℕ} → p + 12 ≤ e → Sync p k → (j : ℕ) × Sync (p + 12) j × (k ≤ j + 6)
  Sync-twelve h s =
      let (a, s', x) = Sync-six (omega arith) s in
      let (b, s'', y) = Sync-six (omega arith) s' in (b, at s'' (omega arith), omega arith)

  -- What an escape sequence at `p` stands for.
  pub data Escape (p : ℕ) : Option (ℕ × Bytes) → Type 0 where
    one :
        {bs : Bytes} (b : ℕ)
        → StandsFor (i.content (p + 1)) b
        → bs ≡ b ∷ []
        → Escape p (some (2, bs))
    literal :
        {n : ℕ} {bs : Bytes}
        → i.content (p + 1) ≡ b'u'
        → IsLiteral i p e (some (n, bs))
        → Escape p (some (n, bs))
    invalid :
        i.content (p + 1) ≢ b'u' → ((b : ℕ) → ¬ StandsFor (i.content (p + 1)) b) → Escape p none
    no_literal : i.content (p + 1) ≡ b'u' → IsLiteral i p e none → Escape p none

  literal-Escape :
      (p : ℕ) → i.content (p + 1) ≡ b'u' → (o : Option (ℕ × Bytes)) → IsLiteral i p e o → Escape p o
  literal-Escape p h none l = no_literal h l
  literal-Escape p h (some (n, bs)) l = literal h l

  pub escape_sequence-Escape :
      (p : ℕ) → p + 1 < i.length → e ≤ i.length → Returns (Escape p) (escape_sequence i p e)
  unfolding escape_sequence
  escape_sequence-Escape p h bound =
      rw (read-ok i (p + 1) h) (elim (Bool-cases (i.content (p + 1) == b'u')) [
        | inl u ↦ rw u (
            Returns-mono (utf16_literal_to_utf8-IsLiteral i p e bound)
              (literal-Escape p (ground arith)))
        | inr n ↦ rw n (elim (Option-cases (unescape (i.content (p + 1)))) [
          | inl none_ ↦ rw none_ (returns (invalid (ground arith) (unescape-none _ none_)))
          | inr (b, is) ↦ rw is (returns (one b (unescape-StandsFor _ b is) refl))
        ])
      ])

  module _ (first skips : ℕ) where
    -- The next state after a plain byte.
    pub Within-plain :
        (p : ℕ) (out : Bytes) (c : ℕ)
        → p < e
        → i.content p ≢ 92
        → Within first skips p out
        → Within first skips (p + 1) (out ++ c ∷ [])
    Within-plain p out c h n (inside k le s b) =
        inside k (omega arith) (Sync-plain h n s) (omega (arith, length-append out (c ∷ [])))
    Within-plain p out c h n (past a b) = absurd (omega arith)

    pub Within-literal :
        (p n : ℕ) (out bs : Bytes)
        → IsLiteral i p e (some (n, bs))
        → p < e
        → Within first skips p out
        → Within first skips (p + n) (out ++ bs) × (0 < n)
    Within-literal p n out bs l h (past a b) = absurd (omega arith)
    Within-literal p n out bs l h (inside k le s b) = elim (IsLiteral-Shape i p e l) [
      | inl (six, room, few) ↦
          let (j, s', d) = Sync-six {p = p} (omega arith) s in
          rw six (inside j (omega arith) s' (omega (arith, length-append out bs)), omega arith)
      | inr (twelve, room, few) ↦
          let (j, s', d) = Sync-twelve {p = p} (omega arith) s in
          rw twelve (inside j (omega arith) s' (omega (arith, length-append out bs)), omega arith)
    ]

    -- A one character escape may take the closing quote for its character, at the last byte.
    pub Within-one :
        (p b : ℕ) (out : Bytes)
        → i.content p ≡ 92
        → p < e
        → Within first skips p out
        → Within first skips (p + 2) (out ++ b ∷ [])
    Within-one p b out c h (past x y) = absurd (omega arith)
    Within-one p b out c h (inside k le s room) = elim (dec_lt (p + 1) e) [
      | yes q ↦
          let (j, s', d) = Sync-two {p = p} q s in
          inside j (omega arith) (at s' (omega arith)) (omega (arith, length-append out (b ∷ [])))
      | no q ↦
          past (omega arith) (omega (arith, length-append out (b ∷ []), Sync-room s, last q k s))
    ]
      where
        last : ¬ (p + 1 < e) → (k : ℕ) → Sync p k → k ≡ 0
        last q k (level (quote x y z w)) = omega arith
        last q k (level (plain x y z t)) = absurd (z c)
        last q k (level (pair x y z t)) = absurd (omega arith)
        last q k (ahead t) = omega (arith, Tail-room i t)
