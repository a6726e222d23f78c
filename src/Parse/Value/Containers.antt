-- ===== src/Parse/Value/Containers.antt =====
-- src/parse.rs: what `parse_array` and `parse_object` do behind their opening bracket.
use rust_json_port_mortem.Base.{
  ℕ, suc, ◌+◌, ◌-◌, ◌≤◌, ◌<◌, ◌≡◌, refl, Option, none, arith, Returns, returns, Returns-bind,
  Bool-cases, ltb, ◌==◌, false, inl, inr, Outcome, ◌∙◌, ap,
}
use rust_json_port_mortem.Model.{Bytes, ℤ, CJson, node, Children, nil, nesting, cjson_nesting_limit}
use rust_json_port_mortem.Alloc.{Memory}
use rust_json_port_mortem.Manip.Delete.{
  owned, owned_all, cjson_delete-Frees, is_reference, is_string_is_const,
}
use rust_json_port_mortem.Parse.State.{Input, ParseBuffer}
use rust_json_port_mortem.Parse.Parsed.{owned-node, Parsed, parsed, failed}
use rust_json_port_mortem.Parse.Value.{close_container, open_container}
use rust_json_port_mortem.Parse.Value.Step.{next_is-Returns, skip-SkippedTo}
use rust_json_port_mortem.Parse.Value.Lists.{IsShallow, ListParsed, listed, dropped}

-- One memory has one count of each kind.
pub allocs : {m m' : Memory} → m ≡ m' → m.allocs ≡ m'.allocs
allocs e = ap (λ (m : Memory). m.allocs) e

pub frees : {m m' : Memory} → m ≡ m' → m.frees ≡ m'.frees
frees e = ap (λ (m : Memory). m.frees) e

abbrev pub no_list : {D : Type 0} → Children D
no_list = nil

module _ {D : Type 0} (i : Input) (t : ℕ) (vi : ℤ) (vd : D) (s : Option Bytes)
    (r : is_reference t ≡ false) (k : is_string_is_const t ≡ false) (type : ℕ)
    (r' : is_reference type ≡ false) (k' : is_string_is_const type ≡ false) (b : ParseBuffer)
    (h : b.depth < cjson_nesting_limit) where
  abbrev pub item : CJson D
  item = node t none vi vd s nil

  abbrev no_items : Children D
  no_items = nil

  nesting-node :
      (c : Children D)
      → IsShallow (suc b.depth) c
      → nesting (node type none vi vd s c) + b.depth ≤ cjson_nesting_limit
  unfolding nesting
  nesting-node c n = ground arith

  owned-nil : owned_all no_items ≡ 0
  unfolding owned
  owned-nil = refl

  close_container-Parsed :
      (bracket : ℕ) (start : ParseBuffer) (l : Option (Children D) × ParseBuffer)
      → b.offset ≤ start.offset
      → start.memory ≡ b.memory
      → ListParsed i (suc b.depth) nil start l
      → Returns (Parsed i item b) (close_container i bracket type item l)
  unfolding close_container
  close_container-Parsed bracket start _ o m (dropped w a) =
      let a' = rw m at a in returns (failed w (omega (arith, owned-nil)))
  close_container-Parsed bracket start _ o m (listed {list} {b'} o' w d n a) =
      let a' = rw m at a in
      let f = cjson_delete-Frees list b'.memory in
      Returns-bind (next_is-Returns i b'.offset (λ c. c == bracket)) λ closed p.
        elim (Bool-cases closed) [
          | inl yes_ ↦ rw yes_ (
              returns (
                parsed (omega arith) (omega (arith, (p yes_).inside)) (omega arith)
                  (nesting-node list n)
                  (omega (
                    arith,
                    owned-nil,
                    owned-node t none vi vd s nil r k,
                    owned-node type none vi vd s list r' k',
                  ))))
          | inr no_ ↦ rw no_ (returns (failed w (omega (arith, owned-nil, f.frees, f.allocs))))
        ]

  pub open_container-Parsed :
      (loop : Children D → ParseBuffer → Outcome (Option (Children D) × ParseBuffer)) (bracket : ℕ)
      (b' : ParseBuffer)
      → ((c : ParseBuffer)
          → c.offset < i.length
          → c.depth ≡ suc b.depth
          → Returns (ListParsed i (suc b.depth) nil c) (loop nil c))
      → b'.offset ≡ b.offset
      → b.offset < i.length
      → b'.depth ≡ suc b.depth
      → b'.memory ≡ b.memory
      → Returns (Parsed i item b) (open_container i loop bracket type item b')
  unfolding open_container
  open_container-Parsed loop bracket b' loop_ok o inside d m =
      Returns-bind (skip-SkippedTo i _ (omega arith)) λ c sk.
        let from : b.offset < c.offset = omega (arith, sk.offset.from) in
        let depth : c.depth ≡ suc b.depth = omega (arith, sk.depth) in
        let memory : c.memory ≡ b.memory = sk.memory ∙ m in
        Returns-bind (next_is-Returns i c.offset (λ x. x == bracket)) λ empty p.
          elim (Bool-cases empty) [
            | inl yes_ ↦ rw yes_ (
                returns (
                  parsed {b' = record c { depth = c.depth - 1; offset = c.offset + 1 }}
                    (omega arith) (omega (arith, (p yes_).inside)) (omega arith)
                    (nesting-node nil shallow)
                    (omega (
                      arith,
                      allocs memory,
                      frees memory,
                      owned-node t none vi vd s nil r k,
                      owned-node type none vi vd s nil r' k',
                    ))))
            | inr no_ ↦ rw no_ (elim (Bool-cases (ltb (c.offset + 0) i.length)) [
              | inr out ↦ rw out (
                  returns (
                    failed {b' = record c { offset = c.offset - 1 }} (omega (arith, sk.within))
                      (omega (arith, allocs memory, frees memory))))
              | inl in_ ↦ rw in_ (
                  Returns-bind (loop_ok _ (ground arith) depth)
                    λ l q. close_container-Parsed bracket _ l (omega arith) memory q)
            ])
          ]
    where
      shallow : IsShallow (suc b.depth) no_items
      shallow = unfold nesting in omega arith
