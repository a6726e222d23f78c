-- ===== src/Parse/Text/Scan.antt =====
-- src/parse.rs: the end of the string that the first loop of `parse_string` finds.
use rust_json_port_mortem.Base.{
  ℕ, zero, suc, ◌+◌, ◌-◌, ◌*◌, ◌≤◌, ◌<◌, ◌≡◌, refl, ◌≢◌, inl, inr, Option, none, some, arith,
  Returns, returns, Returns-mono, Bool-cases, leb, ◌==◌, lt→ltb, ge→ltb,
}
use native.Mathlib.Decide.{dec_lt}
use rust_json_port_mortem.Parse.State.{Input, read-ok}
use rust_json_port_mortem.Parse.Text.{scan_loop}

module _ (i : Input) where
  -- From `q` on the loop reads plain bytes and pairs that begin with a backslash, `k` pairs in all, up
  -- to the quote at `e`.
  pub data Tail (e : ℕ) : ℕ → ℕ → Type 0 where
    quote : {q k : ℕ} → q ≡ e → k ≡ 0 → i.content q ≡ b'"' → e < i.length → Tail e q k
    plain :
        {q k : ℕ} → q < e → i.content q ≢ b'"' → i.content q ≢ 92 → Tail e (q + 1) k → Tail e q k
    pair :
        {q k j : ℕ} → q + 1 < e → i.content q ≡ 92 → k ≡ j + 1 → Tail e (q + 1 + 1) j → Tail e q k

  -- A pair takes two bytes.
  pub Tail-room : {e q k : ℕ} → Tail e q k → q + 2 * k ≤ e
  Tail-room (quote a b c d) = omega arith
  Tail-room (plain a b c t) = omega (arith, Tail-room t)
  Tail-room (pair a b c t) = omega (arith, Tail-room t)

  pub Tail-close : {e q k : ℕ} → Tail e q k → (e < i.length) × (i.content e ≡ b'"')
  Tail-close (quote a b c d) = ground arith
  Tail-close (plain a b c t) = Tail-close t
  Tail-close (pair a b c t) = Tail-close t

  -- The loop stops at the closing quote, at the end of the buffer, or at a backslash that ends it.
  pub data Scanned (q s : ℕ) : Option (ℕ × ℕ) → Type 0 where
    unfinished : Scanned q s none
    at_end : {e k : ℕ} → i.length ≤ e → Scanned q s (some (e, k))
    closed : {e s' : ℕ} (k : ℕ) → s' ≡ s + k → Tail e q k → Scanned q s (some (e, s'))

  plain-Scanned :
      (q s : ℕ)
      → q < i.length
      → i.content q ≢ b'"'
      → i.content q ≢ 92
      → (o : Option (ℕ × ℕ)) → Scanned (q + 1) s o
      → Scanned q s o
  plain-Scanned q s h a b _ unfinished = unfinished
  plain-Scanned q s h a b _ (at_end l) = at_end l
  plain-Scanned q s h a b _ (closed k p t) = closed k p (plain (omega (arith, Tail-room t)) a b t)

  pair-Scanned :
      (q s : ℕ)
      → i.content q ≡ 92
      → (o : Option (ℕ × ℕ)) → Scanned (q + 1 + 1) (s + 1) o
      → Scanned q s o
  pair-Scanned q s a _ unfinished = unfinished
  pair-Scanned q s a _ (at_end l) = at_end l
  pair-Scanned q s a _ (closed k p t) =
      closed (k + 1) (omega arith) (pair (omega (arith, Tail-room t)) a refl t)

  pub scan_loop-Scanned : (f q s : ℕ) → i.length - q < f → Returns (Scanned q s) (scan_loop i f q s)
  unfolding scan_loop
  scan_loop-Scanned zero q s fuel = absurd (omega arith)
  scan_loop-Scanned (suc f) q s fuel = elim (dec_lt q i.length) [
    | no p ↦ rw (ge→ltb q i.length (omega arith)) (returns (at_end (omega arith)))
    | yes p ↦
        rw (lt→ltb q i.length p, read-ok i q p)
          (elim (Bool-cases (i.content q == b'"')) [
            | inl e ↦ rw e (returns (closed 0 (omega arith) (quote refl refl (ground arith) p)))
            | inr e ↦ rw e (elim (Bool-cases (i.content q == 92)) [
              | inl b ↦ rw b (elim (Bool-cases (leb i.length (q + 1))) [
                | inl l ↦ rw l (returns unfinished)
                | inr l ↦ rw l (
                    Returns-mono (scan_loop-Scanned f (q + 1 + 1) (s + 1) (ground arith))
                      (pair-Scanned q s (ground arith)))
              ])
              | inr b ↦ rw b (
                  Returns-mono (scan_loop-Scanned f (q + 1) s (omega arith))
                    (plain-Scanned q s p (ground arith) (ground arith)))
            ])
          ])
  ]
