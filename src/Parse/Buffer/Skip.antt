-- ===== src/Parse/Buffer/Skip.antt =====
-- src/parse.rs: where `buffer_skip_whitespace` stops.
use rust_json_port_mortem.Base.{
  ℕ, zero, suc, ◌+◌, ◌-◌, ◌≤◌, ◌<◌, ◌≡◌, refl, ◌⊎◌, inl, inr, arith, true, false, Returns, returns,
  Returns-bind, Returns-mono, Bool-cases, ltb, leb, leb→le, ◌==◌, if◌then◌else◌,
}
use native.Mathlib.Decide.{dec_lt}
use rust_json_port_mortem.Parse.State.{Input, read-ok}
use rust_json_port_mortem.Parse.Buffer.{skip_loop, buffer_skip_whitespace}

module _ (i : Input) where
  -- A run of blanks from `o` to `o'`.
  abbrev pub AreBlank : ℕ → ℕ → Type 0
  AreBlank o o' = (k : ℕ) → o ≤ k → k < o' → i.content k ≤ 32

  pub record Blanks (o o' : ℕ) : Type 0 where
    pub from : o ≤ o'
    pub within : o' ≤ i.length
    pub blank : AreBlank o o'
    pub stop : (o' ≡ i.length) ⊎ (32 < i.content o')

  -- Where the function leaves the offset: behind the blanks, but never behind the last byte.
  pub record Skipped (o o' : ℕ) : Type 0 where
    pub from : o ≤ o'
    pub blank : AreBlank o o'
    pub inside : o < i.length → o' < i.length
    pub stop : o < i.length → (suc o' ≡ i.length) ⊎ (32 < i.content o')
    pub at_end : i.length ≤ o → o' ≡ o

  below : (o : ℕ) → o < i.length → ltb (o + 0) i.length ≡ true
  below o h = ground arith

  not_below : (o : ℕ) → ¬ (o < i.length) → ltb (o + 0) i.length ≡ false
  not_below o h = ground arith

  Blanks-cons : (o o' : ℕ) → i.content o ≤ 32 → Blanks (o + 1) o' → Blanks o o'
  Blanks-cons o o' c b = record {
    from = omega (arith, b.from);
    within = b.within;
    blank = λ k p q. first k p q (dec_lt o k);
    stop = b.stop;
  }
    where
      first : (k : ℕ) → o ≤ k → k < o' → Dec (o < k) → i.content k ≤ 32
      first k p q (yes h) = b.blank k (omega arith) q
      first k p q (no h) = let e : k ≡ o = omega arith in rw e c

  skip_loop-Blanks :
      (f o : ℕ) → o ≤ i.length → i.length - o < f → Returns (Blanks o) (skip_loop i f o)
  unfolding skip_loop
  skip_loop-Blanks zero o h fuel = absurd (omega arith)
  skip_loop-Blanks (suc f) o h fuel = elim (dec_lt o i.length) [
    | no p ↦ rw (not_below o p) (
        returns (record {
          from = omega arith;
          within = h;
          blank = λ k a b. absurd (omega arith);
          stop = inl (omega arith);
        }))
    | yes p ↦
        rw (below o p, read-ok i o p)
          (elim (Bool-cases (leb (i.content o) 32)) [
            | inl c ↦ rw c (
                Returns-mono (skip_loop-Blanks f (o + 1) (omega arith) (omega arith))
                  λ o' b. Blanks-cons o o' (leb→le _ _ c) b)
            | inr c ↦ rw c (
                returns (record {
                  from = omega arith;
                  within = h;
                  blank = λ k a b. absurd (omega arith);
                  stop = inr (ground arith);
                }))
          ])
  ]

  Skipped-of_Blanks :
      (o o' : ℕ) → o < i.length → Blanks o o' → Skipped o (if o' == i.length then o' - 1 else o')
  Skipped-of_Blanks o o' h b = elim (Bool-cases (o' == i.length)) [
    | inl e ↦ rw e (record {
      from = ground (arith, b.from);
      blank = λ k p q. b.blank k p (omega arith);
      inside = λ _. ground (arith, b.from);
      stop = λ _. inl (ground (arith, b.from));
      at_end = λ p. absurd (omega arith);
    })
    | inr e ↦ rw e (record {
      from = b.from;
      blank = b.blank;
      inside = λ _. ground (arith, b.within);
      stop = λ _. ground (arith, b.stop);
      at_end = λ p. absurd (omega arith);
    })
  ]

  -- The function reads inside of the buffer only, and ends.
  pub buffer_skip_whitespace-Skipped :
      (o : ℕ) → o ≤ i.length → Returns (Skipped o) (buffer_skip_whitespace i o)
  unfolding buffer_skip_whitespace
  buffer_skip_whitespace-Skipped o h = elim (dec_lt o i.length) [
    | no p ↦ rw (not_below o p) (
        returns (record {
          from = omega arith;
          blank = λ k a b. absurd (omega arith);
          inside = λ q. absurd (omega arith);
          stop = λ q. absurd (omega arith);
          at_end = λ q. refl;
        }))
    | yes p ↦ rw (below o p) (
        Returns-bind (skip_loop-Blanks (i.length - o + 1) o h (omega arith))
          λ o' b. returns (Skipped-of_Blanks o o' p b))
  ]
