-- ===== src/Print/Entry/Result.antt =====
-- src/print.rs: what the calls of the printer give back.
use rust_json_port_mortem.Base.{
  ℕ, ◌≡◌, refl, sym, subst, ap, ◌∙◌, Bool, true, false, ◌||◌, Option, some, [], ◌∷◌, ◌++◌, arith,
  Returns, returns, Returns-bind, Returns-mono, Bool-cases, inl, inr,
}
use rust_json_port_mortem.Model.{ℤ, pos, negsuc, CJson, Bytes}
use rust_json_port_mortem.Alloc.{Memory, Grant, cjson_alloc}
use rust_json_port_mortem.Parse.Number.{Libc}
use rust_json_port_mortem.Print.Buffer.{Block, PrintBuffer}
use rust_json_port_mortem.Print.Buffer.Room.{Holds}
use rust_json_port_mortem.Print.Number.{Doubles}
use rust_json_port_mortem.Print.Grammar.{Prints}
use rust_json_port_mortem.Print.Written.{Printed, printed, stopped}
use rust_json_port_mortem.Print.Entry.{
  new_buffer, cjson_print, cjson_print_unformatted, cjson_print_buffered, cjson_print_preallocated,
}
use rust_json_port_mortem.Print.Entry.Item.{
  NulFree?, TextOf, nothing, new_buffer-Ready, ItemDone, print_item-Done, buffered-TextOf,
  print_impl-TextOf,
}

or_true : (t : Bool) → (t || true) ≡ true
or_true true = refl
or_true false = refl

module _ {D : Type 0} (doubles : Doubles D) (libc : Libc D) (format : Bool) where
  -- The result of a call with a block of the caller's: a text of the item's and a nul in a block of
  -- that size, or no text.
  pub data Filled (item : Option (CJson D)) (p : Block) (m : Memory)
      : Bool × PrintBuffer → Type 0 where
    filled :
        {x : CJson D} {p' : Block} {b : PrintBuffer} {out : Bytes}
        → item ≡ some x
        → Prints doubles libc format 0 x out
        → b.buffer ≡ some p'
        → p'.size ≡ p.size
        → Holds p'.bytes 0 (out ++ 0 ∷ [])
        → b.memory ≡ m
        → Filled item p m (true, b)
    not_filled : {b : PrintBuffer} → b.memory ≡ m → Filled item p m (false, b)

  Done-Filled :
      (grant : Grant) (reallocate : Bool) (fresh : ℕ → ℕ → ℕ) (item : Option (CJson D)) (p : Block)
      (m : Memory) (r : Bool × PrintBuffer)
      → Printed
          (ItemDone doubles libc format grant reallocate fresh item)
          (new_buffer p p.size true format m)
          r
      → Filled item p m r
  Done-Filled grant reallocate fresh item p m _ (stopped f) = not_filled (f.fixed refl).1
  Done-Filled grant reallocate fresh item p m _ (printed {b'} q f) =
      let d = q.value.done in
      filled q.is q.value.prints d.has.is (d.has.size ∙ (f.fixed refl).0)
        (subst (λ t. Holds d.has.block.bytes 0 (t ++ 0 ∷ [])) (sym d.split) d.has.holds)
        (f.fixed refl).1

module _ {D : Type 0} (doubles : Doubles D) (libc : Libc D) (grant : Grant) (reallocate : Bool)
    (fresh : ℕ → ℕ → ℕ) (item : Option (CJson D)) (m : Memory) (n : NulFree? item) where
  -- `cjson_print` ends without an access outside of a block, and gives a block that holds a formatted
  -- text of the item's and a nul, the one block that is kept, or null with nothing kept.
  pub cjson_print-TextOf :
      Returns
        (TextOf doubles libc true item m)
        (cjson_print doubles libc grant reallocate fresh item m)
  unfolding cjson_print
  cjson_print-TextOf = print_impl-TextOf doubles libc true grant reallocate fresh item m n

  -- The same of `cjson_print_unformatted` and the text without format.
  pub cjson_print_unformatted-TextOf :
      Returns
        (TextOf doubles libc false item m)
        (cjson_print_unformatted doubles libc grant reallocate fresh item m)
  unfolding cjson_print_unformatted
  cjson_print_unformatted-TextOf =
      print_impl-TextOf doubles libc false grant reallocate fresh item m n

  -- The same of `cjson_print_buffered`, where the first block is not empty or `realloc` is there.
  pub cjson_print_buffered-TextOf :
      (prebuffer : ℤ) (fmt : Bool)
      → (prebuffer ≡ pos 0 → reallocate ≡ true)
      → Returns
          (TextOf doubles libc fmt item m)
          (cjson_print_buffered doubles libc grant reallocate fresh item prebuffer fmt m)
  unfolding cjson_print_buffered cjson_alloc
  cjson_print_buffered-TextOf (negsuc k) fmt h = returns (nothing (omega arith))
  cjson_print_buffered-TextOf (pos k) fmt h = elim (Bool-cases (grant m.requests k)) [
    | inl e ↦ simp e (
        Returns-bind
          (print_item-Done doubles libc fmt grant reallocate fresh item _ n (
            new_buffer-Ready doubles libc fmt grant reallocate fresh _ k false _ refl
              (λ z. ground (arith, h (ap pos z)))))
          (λ r p.
            buffered-TextOf doubles libc fmt grant reallocate fresh item m _ r refl (omega arith)
              p))
    | inr e ↦ simp e (returns (nothing (omega arith)))
  ]

  -- `cjson_print_preallocated` writes within a block of the caller's that is as long as it says, which
  -- holds a text of the item's and a nul if the call returns 1; it calls no hook.
  pub cjson_print_preallocated-Filled :
      (p : Block) (format : Bool)
      → Returns (Filled doubles libc format item p m) (
          cjson_print_preallocated doubles libc grant reallocate fresh item
            (some p)
            (pos p.size)
            format
            m)
  unfolding cjson_print_preallocated
  cjson_print_preallocated-Filled p format =
      Returns-mono
        (print_item-Done doubles libc format grant reallocate fresh item _ n (
          new_buffer-Ready doubles libc format grant reallocate fresh p p.size true m refl
            (λ z. or_true reallocate)))
        (λ r t. Done-Filled doubles libc format grant reallocate fresh item p m r t)
