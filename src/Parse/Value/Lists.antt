-- ===== src/Parse/Value/Lists.antt =====
-- src/parse.rs: the loops of `parse_array` and `parse_object`.
use rust_json_port_mortem.Base.{
  ℕ, ◌+◌, ◌≤◌, ◌<◌, ◌≡◌, Option, none, some, arith, Returns, returns, Returns-bind, Returns-mono,
  Bool-cases, ◌==◌, inl, inr, Outcome,
}
use rust_json_port_mortem.Model.{
  CJson, Children, nil, cons, snoc, nesting, nesting_all, cjson_nesting_limit,
}
use rust_json_port_mortem.Alloc.{Memory}
use rust_json_port_mortem.Manip.Delete.{
  owned, owned_all, owned_all-snoc, cjson_delete, cjson_delete-Frees,
}
use rust_json_port_mortem.Parse.State.{Input, ParseBuffer}
use rust_json_port_mortem.Parse.Parsed.{Parsed, parsed, failed}
use rust_json_port_mortem.Parse.Value.{after_item}
use rust_json_port_mortem.Parse.Value.Step.{next_is-Returns, skip-SkippedTo}

-- What the memory holds for the code: `n` blocks, where it held `p`.
abbrev pub Balance : ℕ → ℕ → Memory → Memory → Type 0
Balance p n m m' = m'.allocs + m.frees + p ≡ m'.frees + m.allocs + n

abbrev pub IsShallow : {D : Type 0} → ℕ → Children D → Type 0
IsShallow level c = nesting_all c + level ≤ cjson_nesting_limit

IsShallow-snoc :
    {D : Type 0} (level : ℕ) (c : Children D) (x : CJson D)
    → IsShallow level c
    → nesting x + level ≤ cjson_nesting_limit
    → IsShallow level (snoc c x)
unfolding nesting
IsShallow-snoc level nil x h k = omega arith
IsShallow-snoc level (cons y c) x h k = omega (arith, IsShallow-snoc level c x (omega arith) k)

module _ {D : Type 0} (i : Input) (level : ℕ) where
  -- A loop from a list and a buffer on: it returns a longer list, or gives the whole list back.
  pub data ListParsed (head : Children D) (b : ParseBuffer)
      : Option (Children D) × ParseBuffer → Type 0 where
    listed :
        {list : Children D} {b' : ParseBuffer}
        → b.offset < b'.offset
        → b'.offset ≤ i.length
        → b'.depth ≡ level
        → IsShallow level list
        → Balance (owned_all head) (owned_all list) b.memory b'.memory
        → ListParsed head b (some list, b')
    dropped :
        {b' : ParseBuffer}
        → b'.offset ≤ i.length
        → Balance (owned_all head) 0 b.memory b'.memory
        → ListParsed head b (none, b')

  pub ListParsed-trans :
      {head list : Children D} {b c : ParseBuffer}
      → b.offset < c.offset
      → Balance (owned_all head) (owned_all list) b.memory c.memory
      → (r : Option (Children D) × ParseBuffer) → ListParsed list c r
      → ListParsed head b r
  ListParsed-trans h k _ (listed o w d s a) = listed (omega arith) w d s (omega arith)
  ListParsed-trans h k _ (dropped w a) = dropped w (omega arith)

  -- The way out that gives the list back, where the code holds it and nothing else.
  pub dropped-delete :
      (head list : Children D) (b c : ParseBuffer)
      → c.offset ≤ i.length
      → Balance (owned_all head) (owned_all list) b.memory c.memory
      → ListParsed head b (none, record c { memory = cjson_delete list c.memory })
  dropped-delete head list b c w a =
      let f = cjson_delete-Frees list c.memory in dropped w (omega (arith, f.frees, f.allocs))

  -- A loop that starts at its next item.
  abbrev pub NextRounds :
      (Children D → ParseBuffer → Outcome (Option (Children D) × ParseBuffer))
      → ParseBuffer
      → Type 0
  NextRounds next b =
      (list : Children D) (c : ParseBuffer)
      → b.offset < c.offset
      → c.offset < i.length
      → c.depth ≡ level
      → IsShallow level list
      → Returns (ListParsed list c) (next list c)

  pub after_item-ListParsed :
      {next : Children D → ParseBuffer → Outcome (Option (Children D) × ParseBuffer)}
      (head : Children D) (item : CJson D) (b c : ParseBuffer) (r : Option (CJson D) × ParseBuffer)
      → NextRounds next b
      → IsShallow level head
      → b.offset < c.offset
      → c.depth ≡ level
      → Balance (owned_all head) (owned_all head + owned item) b.memory c.memory
      → Parsed i item c r
      → Returns (ListParsed head b) (after_item i next head item r)
  unfolding after_item
  after_item-ListParsed head item b c _ next shallow h d a (failed w k) =
      returns (dropped-delete head (snoc head item) b _ w (omega (arith, owned_all-snoc head item)))
  after_item-ListParsed head item b c _ next shallow h d a (parsed {done} {b'} o w d' n k) =
      Returns-bind (skip-SkippedTo i b' w) λ b'' s.
        Returns-bind (next_is-Returns i b''.offset (λ x. x == b',')) λ comma p.
          let balance : Balance (owned_all head) (owned_all (snoc head done)) b.memory b''.memory =
            rw s.memory (omega (arith, owned_all-snoc head done)) in
          let deep : IsShallow level (snoc head done) =
            IsShallow-snoc level head done shallow (omega arith) in
          let later : b.offset < b''.offset = omega (arith, s.offset.from) in
          let depth : b''.depth ≡ level = omega (arith, s.depth) in
          elim (Bool-cases comma) [
            | inl yes_ ↦ rw yes_ (
                Returns-mono (next (snoc head done) b'' later (p yes_).inside depth deep)
                  (ListParsed-trans later balance))
            | inr no_ ↦ rw no_ (returns (listed later s.within depth deep balance))
          ]
