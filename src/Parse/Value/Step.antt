-- ===== src/Parse/Value/Step.antt =====
-- src/parse.rs: the tests of `parse_value` and `skip`, as they are used by the proofs about values.
use rust_json_port_mortem.Base.{
  ℕ, ◌+◌, ◌≤◌, ◌<◌, ◌≡◌, refl, Bool, [], ◌∷◌, arith, Returns, returns, Returns-bind, Returns-mono,
  Bool-cases, leb, leb→le, ◌==◌, if◌then◌else◌, true, false, lt→ltb, ge→ltb, length, inl, inr, ok,
  Outcome, ◌>>=◌,
}
use native.Mathlib.Decide.{dec_lt}
use rust_json_port_mortem.Model.{Bytes}
use rust_json_port_mortem.Parse.State.{Input, ParseBuffer, read-ok}
use rust_json_port_mortem.Parse.Buffer.{slice_eq, matches_at}
use rust_json_port_mortem.Parse.Buffer.Skip.{Skipped, buffer_skip_whitespace-Skipped}
use rust_json_port_mortem.Parse.Kind.{
  Kind, null, false_, true_, string, number, array, object, nothing, starts_with, next_is,
  value_kind, skip,
}

module _ (i : Input) where
  pub slice_eq-Returns :
      (o : ℕ) (text : Bytes)
      → o + length text ≤ i.length
      → Returns (λ b. Unit {0}) (slice_eq i o text)
  unfolding slice_eq
  slice_eq-Returns o [] h = returns tt
  slice_eq-Returns o (c ∷ cs) h =
      rw (read-ok i o (omega arith)) (elim (Bool-cases (i.content o == c)) [
        | inl e ↦ rw e (slice_eq-Returns (o + 1) cs (omega arith))
        | inr e ↦ rw e (returns tt)
      ])

  -- A text that is found lies within the buffer.
  starts_with-Returns :
      (o : ℕ) (text : Bytes)
      → Returns (λ b. b ≡ true → o + length text ≤ i.length) (starts_with i o text)
  unfolding starts_with matches_at
  starts_with-Returns o text = elim (Bool-cases (leb (o + length text) i.length)) [
    | inl h ↦ rw h (Returns-mono (slice_eq-Returns o text (leb→le _ _ h)) λ b _ _. leb→le _ _ h)
    | inr h ↦ rw h (returns (λ e. cc))
  ]

  -- What a test of the next byte tells.
  pub record IsNext (o : ℕ) (test : ℕ → Bool) : Type 0 where
    pub inside : o < i.length
    pub passes : test (i.content o) ≡ true

  pub next_is-Returns :
      (o : ℕ) (test : ℕ → Bool) → Returns (λ b. b ≡ true → IsNext o test) (next_is i o test)
  unfolding next_is
  next_is-Returns o test = elim (dec_lt o i.length) [
    | yes h ↦
        rw (lt→ltb (o + 0) i.length (omega arith), read-ok i o h)
          (returns (λ e. record { inside = h; passes = e }))
    | no h ↦ rw (ge→ltb (o + 0) i.length (omega arith)) (returns (λ e. cc))
  ]

  -- What the branches rely on.
  abbrev pub KindAt : ℕ → Kind → Type 0
  KindAt o null = o + 4 ≤ i.length
  KindAt o false_ = o + 5 ≤ i.length
  KindAt o true_ = o + 4 ≤ i.length
  KindAt o string = o < i.length
  KindAt o number = o < i.length
  KindAt o array = o < i.length
  KindAt o object = o < i.length
  KindAt o nothing = Unit

  -- One test of `value_kind`: the branch that it takes, or the tests that follow it.
  try :
      {P : Bool → Type 0} {m : Outcome Bool} (o : ℕ) (kind : Kind) (rest : Outcome Kind)
      → Returns P m
      → (P true → KindAt o kind)
      → Returns (KindAt o) rest
      → Returns (KindAt o) (m >>= λ b. if b then ok kind else rest)
  try {P} o kind rest m taken r = Returns-bind m λ b p. step b p
    where
      step : (b : Bool) → P b → Returns (KindAt o) (if b then ok kind else rest)
      step true p = returns (taken p)
      step false p = r

  pub value_kind-KindAt : (o : ℕ) → Returns (KindAt o) (value_kind i o)
  unfolding value_kind
  value_kind-KindAt o =
      try o null _ (starts_with-Returns o _) (λ p. p refl)
        (try o false_ _ (starts_with-Returns o _) (λ p. p refl)
          (try o true_ _ (starts_with-Returns o _) (λ p. p refl)
            (try o string _ (next_is-Returns o _) (λ p. (p refl).inside)
              (try o number _ (next_is-Returns o _) (λ p. (p refl).inside)
                (try o array _ (next_is-Returns o _) (λ p. (p refl).inside)
                  (Returns-bind (next_is-Returns o _) last))))))
    where
      last :
          (b : Bool)
          → (b ≡ true → IsNext o (λ c. c == b'{'))
          → Returns (KindAt o) (ok (if b then object else nothing))
      last true p = returns (p refl).inside
      last false p = returns tt

  -- The buffer behind `skip`: only the offset moves.
  pub record SkippedTo (b b' : ParseBuffer) : Type 0 where
    pub offset : Skipped i b.offset b'.offset
    pub within : b'.offset ≤ i.length
    pub depth : b'.depth ≡ b.depth
    pub memory : b'.memory ≡ b.memory

  pub skip-SkippedTo : (b : ParseBuffer) → b.offset ≤ i.length → Returns (SkippedTo b) (skip i b)
  unfolding skip
  skip-SkippedTo b h = Returns-bind (buffer_skip_whitespace-Skipped i b.offset h) λ o s.
      returns (record {
        offset = s;
        within = inside s (dec_lt b.offset i.length);
        depth = refl;
        memory = refl;
      })
    where
      inside : {o : ℕ} → Skipped i b.offset o → Dec (b.offset < i.length) → o ≤ i.length
      inside s (yes lt) = omega (arith, s.inside lt)
      inside s (no ge) = omega (arith, s.at_end (omega arith))
