-- ===== src/Parse/Entry/Total.antt =====
-- src/parse.rs: what a call of `cJSON_ParseWithLengthOpts` leaves behind.
use rust_json_port_mortem.Base.{
  ℕ, ◌+◌, ◌-◌, ◌≤◌, ◌<◌, ◌≡◌, refl, Bool, Option, none, some, [], ◌∷◌, arith, Returns, returns,
  Returns-bind, Bool-cases, ltb, ◌==◌, if◌then◌else◌, true, false, lt→ltb, ge→ltb, inl, inr, ok,
  le→leb, gt→leb, match_option, ◌⊎◌,
}
use native.Mathlib.Decide.{dec_lt}
use rust_json_port_mortem.Model.{CJson, nil, cons, nesting, cjson_nesting_limit}
use rust_json_port_mortem.Alloc.{Memory, Grant, Keeps, cjson_alloc}
use rust_json_port_mortem.Manip.Delete.{owned, owned_all, cjson_delete, cjson_delete-Frees}
use rust_json_port_mortem.Parse.State.{Input, ParseBuffer, read-ok}
use rust_json_port_mortem.Parse.Buffer.{skip_utf8_bom}
use rust_json_port_mortem.Parse.Number.{Libc, StrtodWithin}
use rust_json_port_mortem.Parse.Parsed.{fresh, Parsed, parsed, failed}
use rust_json_port_mortem.Parse.Value.{new_item, node_size}
use rust_json_port_mortem.Parse.Value.Step.{skip-SkippedTo, slice_eq-Returns}
use rust_json_port_mortem.Parse.Value.Containers.{allocs, frees}
use rust_json_port_mortem.Parse.Value.Total.{parse_value-Parsed}
use rust_json_port_mortem.Parse.Entry.{
  ParseResult, no_error, finish_parse_failure, finish_parse, parse_root, parse_at,
}

skip_utf8_bom-within : (i : Input) → Returns (λ o. o ≤ i.length) (skip_utf8_bom i 0)
unfolding skip_utf8_bom
skip_utf8_bom-within i = elim (Bool-cases (ltb 4 i.length)) [
  | inr no_ ↦ rw no_ (returns (omega arith))
  | inl yes_ ↦ rw yes_ (
      Returns-bind (slice_eq-Returns i 0 (0xEF ∷ 0xBB ∷ 0xBF ∷ []) (ground arith))
        λ b _. returns (ground arith))
]

-- The position that `finish_parse_failure` picks.
position_within :
    (offset len : ℕ)
    → let position = if ltb offset len then offset else if ltb 0 len then len - 1 else 0 in
      (position < len) ⊎ ((len ≡ 0) × (position ≡ 0))
position_within offset len = elim (dec_lt offset len) [
  | yes h ↦ rw (lt→ltb offset len h) (inl h)
  | no h ↦ rw (ge→ltb offset len (omega arith)) (elim (dec_lt 0 len) [
    | yes k ↦ rw (lt→ltb 0 len k) (inl (omega arith))
    | no k ↦ rw (ge→ltb 0 len (omega arith)) (inr (omega arith, refl))
  ])
]

module _ {D : Type 0} (i : Input) (value : ℕ) (m : Memory) where
  -- A call either returns a tree, for which just the blocks that the tree owns are kept; or it returns
  -- null and keeps none, with the error at a byte of the text.
  pub data Finished : ParseResult D → Type 0 where
    success :
        {item : CJson D} {memory : Memory} (o : ℕ)
        → o ≤ i.length
        → nesting item ≤ cjson_nesting_limit
        → Keeps (owned item) m memory
        → Finished (record {
          item = some item;
          return_parse_end = some (value + o);
          error = no_error;
          memory = memory;
        })
    failure :
        {memory : Memory} (position : ℕ)
        → (position < i.length) ⊎ ((i.length ≡ 0) × (position ≡ 0))
        → Keeps 0 m memory
        → Finished (record {
          item = none;
          return_parse_end = some (value + position);
          error = record { json = some value; position = position };
          memory = memory;
        })

  finish_parse_failure-Finished :
      (offset : ℕ) (m' : Memory)
      → Keeps 0 m m'
      → Finished (finish_parse_failure (some value) i.length offset m')
  unfolding finish_parse_failure
  finish_parse_failure-Finished offset m' k = failure _ (position_within offset i.length) k

  owned-single : (x : CJson D) → owned_all (cons x nil) ≡ owned x
  unfolding owned
  owned-single x = omega arith

  deleted :
      (x : CJson D) (m' : Memory) (offset : ℕ)
      → Keeps (owned x) m m'
      → Finished (finish_parse_failure (some value) i.length offset (cjson_delete (cons x nil) m'))
  deleted x m' offset k =
      let f = cjson_delete-Frees (cons x nil) m' in
      finish_parse_failure-Finished offset _ (omega (arith, f.frees, f.allocs, owned-single x))

module _ {D : Type 0} (libc : Libc D) (grant : Grant) (i : Input) (value : ℕ) where
  finish_parse-Finished :
      (m : Memory) (require : Bool) (item : CJson D) (b : ParseBuffer)
      → b.offset ≤ i.length
      → nesting item ≤ cjson_nesting_limit
      → Keeps (owned item) m b.memory
      → Returns (Finished i value m) (finish_parse libc grant i value require item b)
  unfolding finish_parse
  finish_parse-Finished m false item b o n k = returns (success b.offset o n k)
  finish_parse-Finished m true item b o n k = Returns-bind (skip-SkippedTo i b o) λ c s.
      let kept : Keeps (owned item) m c.memory = omega (arith, allocs s.memory, frees s.memory) in
      elim (dec_lt c.offset i.length) [
        | no h ↦
            rw (le→leb i.length c.offset (omega arith))
              (returns (deleted i value m item c.memory c.offset kept))
        | yes h ↦
            rw (gt→leb i.length c.offset h, read-ok i c.offset h)
              (elim (Bool-cases (i.content c.offset == 0)) [
                | inl nul ↦ rw nul (returns (success c.offset s.within n kept))
                | inr no_ ↦ rw no_ (returns (deleted i value m item c.memory c.offset kept))
              ])
      ]

  owned-new_item : owned (new_item libc grant i) ≡ 1
  unfolding owned
  owned-new_item = refl

  module _ (within : StrtodWithin libc) where
    parse_root-Finished :
        (m m' : Memory) (require : Bool)
        → Keeps 1 m m'
        → Returns (Finished i value m) (parse_root libc grant i value require m')
    unfolding parse_root
    parse_root-Finished m m' require k = Returns-bind (skip_utf8_bom-within i) λ start w.
        Returns-bind (skip-SkippedTo i _ w) λ b s.
          Returns-bind
            (parse_value-Parsed libc grant i (cjson_nesting_limit + 1) _ b within
              (omega (arith, s.depth)) (omega (arith, s.depth)) s.within
              (fresh 0 _ _ none refl refl))
            λ (o, b') p. finish b (omega (arith, allocs s.memory, frees s.memory)) s.depth o b' p
      where
        finish :
            (b : ParseBuffer)
            → Keeps 1 m b.memory
            → b.depth ≡ 0
            → (o : Option (CJson D)) (b' : ParseBuffer) → Parsed i (new_item libc grant i) b (o, b')
            → Returns (Finished i value m) (
                match_option o
                  (ok (
                    finish_parse_failure
                      (some value)
                      i.length
                      b'.offset
                      (cjson_delete (cons (new_item libc grant i) nil) b'.memory)))
                  λ item. finish_parse libc grant i value require item b')
        finish b kept d _ b' (failed w a) =
            returns (deleted i value m _ b'.memory b'.offset (omega (arith, owned-new_item)))
        finish b kept d _ b' (parsed {done} o w d' n a) =
            finish_parse-Finished m require done b' w (omega arith) (omega (arith, owned-new_item))

    pub parse_at-Finished :
        (m : Memory) (require : Bool)
        → Returns (Finished i value m) (parse_at libc grant i value require m)
    unfolding parse_at cjson_alloc finish_parse_failure
    parse_at-Finished m require = elim (Bool-cases (i.length == 0)) [
      | inl empty ↦ rw empty (returns (failure 0 (inr (ground arith, refl)) (omega arith)))
      | inr some_ ↦ rw some_ (elim (Bool-cases (grant m.requests node_size)) [
        | inl yes_ ↦ rw yes_ (parse_root-Finished m _ require (omega arith))
        | inr no_ ↦ rw no_ (returns (finish_parse_failure-Finished i value m 0 _ (omega arith)))
      ])
    ]
