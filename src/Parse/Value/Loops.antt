-- ===== src/Parse/Value/Loops.antt =====
-- src/parse.rs: the rounds of the loops of `parse_array` and `parse_object`.
use rust_json_port_mortem.Base.{
  ℕ, zero, suc, ◌+◌, ◌-◌, ◌≤◌, ◌<◌, ◌≡◌, refl, Option, none, some, arith, Returns, returns,
  Returns-bind, Bool-cases, ltb, ◌==◌, inl, inr, Outcome, ltb→lt,
}
use rust_json_port_mortem.Model.{Bytes, CJson, Children, snoc}
use rust_json_port_mortem.Alloc.{Grant, cjson_alloc}
use rust_json_port_mortem.Manip.Delete.{owned, owned_all, owned_all-snoc}
use rust_json_port_mortem.Parse.State.{Input, ParseBuffer}
use rust_json_port_mortem.Parse.Number.{Libc}
use rust_json_port_mortem.Parse.Text.Result.{
  StringResult, accepted, rejected, parse_string-StringResult,
}
use rust_json_port_mortem.Parse.Parsed.{Fresh, fresh, Parsed}
use rust_json_port_mortem.Parse.Value.{
  Parser, new_item, with_name, node_size, array_loop, after_name, object_loop,
}
use rust_json_port_mortem.Parse.Value.Step.{next_is-Returns, skip-SkippedTo}
use rust_json_port_mortem.Parse.Value.Lists.{
  Balance, IsShallow, ListParsed, dropped-delete, NextRounds, after_item-ListParsed,
}

module _ {D : Type 0} (libc : Libc D) (grant : Grant) (i : Input) (level : ℕ) (value : Parser D)
    (value_ok : (item : CJson D) (b : ParseBuffer)
      → b.depth ≡ level
      → b.offset ≤ i.length
      → Fresh item
      → Returns (Parsed i item b) (value item b)) where
  Fresh-new_item : Fresh (new_item libc grant i)
  Fresh-new_item = fresh 0 _ _ none refl refl

  Fresh-with_name : (name : Bytes) → Fresh (with_name name (new_item libc grant i))
  Fresh-with_name name = fresh 16 _ _ (some name) refl refl

  owned-new_item : owned (new_item libc grant i) ≡ 1
  unfolding owned
  owned-new_item = refl

  owned-with_name : (name : Bytes) → owned (with_name name (new_item libc grant i)) ≡ 2
  unfolding owned
  owned-with_name name = refl

  pub array_loop-ListParsed :
      (f : ℕ) (head : Children D) (b : ParseBuffer)
      → i.length - b.offset < f
      → b.offset < i.length
      → b.depth ≡ level
      → IsShallow level head
      → Returns (ListParsed i level head b) (array_loop libc grant i value f head b)
  unfolding array_loop cjson_alloc
  array_loop-ListParsed zero head b fuel h d s = absurd (omega arith)
  array_loop-ListParsed (suc f) head b fuel h d s =
      elim (Bool-cases (grant b.memory.requests node_size)) [
        | inr no_ ↦
            rw no_ (returns (dropped-delete i level head head b _ (omega arith) (omega arith)))
        | inl yes_ ↦ rw yes_ (
            Returns-bind (skip-SkippedTo i _ (omega arith)) λ c sk.
              let later : b.offset < c.offset = omega (arith, sk.offset.from) in
              let depth : c.depth ≡ level = omega (arith, sk.depth) in
              Returns-bind (value_ok _ c depth sk.within Fresh-new_item) λ r p.
                after_item-ListParsed i level head (new_item libc grant i) b c r
                  (λ list c' x y z w. array_loop-ListParsed f list c' (omega arith) y z w) s later
                  depth (rw sk.memory (omega (arith, owned-new_item))) p)
      ]

  after_name-ListParsed :
      {next : Children D → ParseBuffer → Outcome (Option (Children D) × ParseBuffer)}
      (head : Children D) (b c : ParseBuffer) (r : Option Bytes × ParseBuffer)
      → NextRounds i level next b
      → IsShallow level head
      → b.offset < c.offset
      → c.depth ≡ level
      → Balance (owned_all head) (owned_all head + 1) b.memory c.memory
      → StringResult i c r
      → Returns (ListParsed i level head b) (after_name libc grant i value next head r)
  unfolding after_name
  after_name-ListParsed head b c _ next s later d a (rejected o w e k) = returns (
      dropped-delete i level head (snoc head (new_item libc grant i)) b _ w
        (omega (arith, owned_all-snoc head (new_item libc grant i), owned-new_item)))
  after_name-ListParsed head b c _ next s later d a
        (accepted {out = name} {b' = c'} e is o w d' k) =
      let item = with_name name (new_item libc grant i) in
      Returns-bind (skip-SkippedTo i c' (omega arith)) λ c'' sk.
        Returns-bind (next_is-Returns i c''.offset (λ x. x == b':')) λ colon p.
          elim (Bool-cases colon) [
            | inr no_ ↦ rw no_ (
                returns (
                  dropped-delete i level head (snoc head item) b c'' sk.within
                    (rw sk.memory (omega (arith, owned_all-snoc head item, owned-with_name name)))))
            | inl yes_ ↦ rw yes_ (
                Returns-bind (skip-SkippedTo i _ (omega (arith, (p yes_).inside))) λ v sv.
                  let past : b.offset < v.offset = omega (arith, sk.offset.from, sv.offset.from) in
                  let depth : v.depth ≡ level = omega (arith, sk.depth, sv.depth) in
                  Returns-bind (value_ok _ v depth sv.within (Fresh-with_name name)) λ r q.
                    after_item-ListParsed i level head item b v r next s past depth
                      (rw (sv.memory, sk.memory) (omega (arith, owned-with_name name))) q)
          ]

  pub object_loop-ListParsed :
      (f : ℕ) (head : Children D) (b : ParseBuffer)
      → i.length - b.offset < f
      → b.offset < i.length
      → b.depth ≡ level
      → IsShallow level head
      → Returns (ListParsed i level head b) (object_loop libc grant i value f head b)
  unfolding object_loop cjson_alloc
  object_loop-ListParsed zero head b fuel h d s = absurd (omega arith)
  object_loop-ListParsed (suc f) head b fuel h d s =
      elim (Bool-cases (grant b.memory.requests node_size)) [
        | inr no_ ↦
            rw no_ (returns (dropped-delete i level head head b _ (omega arith) (omega arith)))
        | inl yes_ ↦ rw yes_ (elim (Bool-cases (ltb (b.offset + 1) i.length)) [
          | inr end ↦ rw end (
              returns (
                dropped-delete i level head (snoc head (new_item libc grant i)) b _ (omega arith)
                  (omega (arith, owned_all-snoc head (new_item libc grant i), owned-new_item))))
          | inl more ↦ rw more (
              let room : b.offset + 1 < i.length = ltb→lt _ _ more in
              Returns-bind (skip-SkippedTo i _ (omega arith)) λ c sk.
                Returns-bind (parse_string-StringResult i grant c (sk.offset.inside room)) λ r q.
                  after_name-ListParsed head b c r
                    (λ list c' x y z w. object_loop-ListParsed f list c' (omega arith) y z w) s
                    (omega (arith, sk.offset.from)) (omega (arith, sk.depth))
                    (rw sk.memory (omega arith)) q)
        ])
      ]
