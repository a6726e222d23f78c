-- ===== src/Print/Entry/Item.antt =====
-- src/print.rs: what `print_impl` and its parts give back.
use rust_json_port_mortem.Base.{
  ℕ, ◌+◌, ◌≤◌, ◌<◌, ◌≡◌, refl, sym, subst, ap, ◌∙◌, Bool, true, false, ◌||◌, Option, none, some, [],
  ◌∷◌, ◌++◌, arith, ok, ◌>>=◌, Returns, returns, Returns-bind, Returns-mono, Bool-cases, inl, inr,
  if◌then◌else◌, match_option, length, length-append, ltb, ◌==◌,
}
use rust_json_port_mortem.Model.{CJson, Bytes}
use rust_json_port_mortem.Alloc.{Memory, Grant, Keeps, cjson_alloc, cjson_dealloc}
use rust_json_port_mortem.Parse.Number.{Libc}
use rust_json_port_mortem.Print.Buffer.{Block, PrintBuffer, resized, update_offset}
use rust_json_port_mortem.Print.Buffer.Room.{
  store-ok, update_below, Holds, Holds-agree, Holds-left, Holds-append, Has, update_offset-Moved,
}
use rust_json_port_mortem.Print.Buffer.Grow.{Follows, Follows-refl, live, copy-ok, chosen}
use rust_json_port_mortem.Print.Number.{Doubles}
use rust_json_port_mortem.Print.Grammar.{Prints, NulFree}
use rust_json_port_mortem.Print.Value.Containers.{ValueDone}
use rust_json_port_mortem.Print.Value.Result.{print_value-Done}
use rust_json_port_mortem.Print.Written.{Printed, printed, stopped, Printed-map, Ready}
use rust_json_port_mortem.Print.Entry.{
  default_buffer_size, cjson_min, new_buffer, free_buffer, print_item, fit, print_impl,
}

-- A pointer to an item that has no text with a nul.
abbrev pub NulFree? : {D : Type 0} → Option (CJson D) → Type 0
NulFree? none = Unit
NulFree? (some x) = NulFree x

cjson_min-right : (a b : ℕ) → b ≤ a → cjson_min a b ≡ b
unfolding cjson_min
cjson_min-right a b h = ground arith

update_at : (k o c d : ℕ) → k ≡ o → (if k == o then c else d) ≡ c
update_at k o c d e = ground arith

-- The text in another block, ended by a nul there.
Holds-ended :
    (f g : ℕ → ℕ) (out : Bytes)
    → ((k : ℕ) → k < length out → g k ≡ f k)
    → g (length out) ≡ 0
    → Holds f 0 (out ++ 0 ∷ [])
    → Holds g 0 (out ++ 0 ∷ [])
Holds-ended f g out same ended h =
    Holds-append g 0 out (0 ∷ [])
      (Holds-agree f g 0 out (λ k lt. same k (omega arith)) (Holds-left f 0 out (0 ∷ []) h))
      (subst (λ k. Holds g k (0 ∷ [])) (omega arith) (ended, tt))

abbrev copied : ℕ → Block → Block → Block
copied n from to = record to { bytes = λ k. if ltb k n then from.bytes k else to.bytes k }

module _ {D : Type 0} (doubles : Doubles D) (libc : Libc D) (format : Bool) where
  -- The result of a call: a block with a text of the item's and a nul, which is all that is kept, or
  -- null with nothing kept.
  pub data TextOf (item : Option (CJson D)) (m : Memory) : Option Block × Memory → Type 0 where
    text :
        {x : CJson D} {p : Block} {m' : Memory} {out : Bytes}
        → item ≡ some x
        → Prints doubles libc format 0 x out
        → Holds p.bytes 0 (out ++ 0 ∷ [])
        → length out + 1 ≤ p.size
        → Keeps 1 m m'
        → TextOf item m (some p, m')
    nothing : {m' : Memory} → Keeps 0 m m' → TextOf item m (none, m')

  module _ (grant : Grant) (reallocate : Bool) (fresh : ℕ → ℕ → ℕ) where
    pub new_buffer-Ready :
        (p : Block) (length : ℕ) (noalloc : Bool) (m : Memory)
        → p.size ≡ length
        → (length ≡ 0 → (reallocate || noalloc) ≡ true)
        → Ready reallocate format [] 0 (new_buffer p length noalloc format m)
    new_buffer-Ready p length noalloc m e grows = record {
      has = record { block = p; is = refl; size = e; holds = tt; fits = omega arith };
      offset = refl;
      depth_is = refl;
      format_is = refl;
      grows = grows;
    }

    -- The state behind `print_item`.
    pub record ItemDone (item : Option (CJson D)) (b : PrintBuffer) : Type 0 where
      pub x : CJson D
      pub is : item ≡ some x
      pub value : ValueDone doubles libc reallocate format x [] 0 b

    pub print_item-Done :
        (item : Option (CJson D)) (b : PrintBuffer)
        → NulFree? item
        → Ready reallocate format [] 0 b
        → Returns
            (Printed (ItemDone item) b)
            (print_item doubles libc grant reallocate fresh item b)
    unfolding print_item
    print_item-Done none b n r = returns (stopped (Follows-refl b))
    print_item-Done (some x) b n r =
        Printed-map (λ b' p. record { x = x; is = refl; value = p })
          (print_value-Done doubles libc reallocate format grant fresh x [] 0 b n r)

    -- The block of the text's size has the text.
    fit-TextOf :
        (x : CJson D) (out : Bytes) (m : Memory) (b : PrintBuffer)
        → Prints doubles libc format 0 x out
        → Has (out ++ 0 ∷ []) b
        → b.offset ≡ length out
        → Keeps 1 m b.memory
        → Returns (TextOf (some x) m) (fit grant reallocate fresh b)
    unfolding fit cjson_alloc cjson_dealloc resized
    fit-TextOf x out m b prints h at kept =
        let total = length-append out (0 ∷ []) in
        let there : b.offset < h.block.size = omega (arith, total, h.size, h.fits) in
        let exact : Block = record { size = b.offset + 1; bytes = fresh b.memory.requests } in
        let whole : length out + 1 ≤ b.offset + 1 = omega arith in
        simp h.is (elim (Bool-cases (grant b.memory.requests (b.offset + 1))) [
          | inl e ↦ simp e (elim (Bool-cases reallocate) [
            | inl r ↦ simp r (
                returns (
                  text refl prints
                    (Holds-agree h.block.bytes _ 0 (out ++ 0 ∷ [])
                      (λ k lt. chosen k h.block.size _ _ (omega (arith, h.size, h.fits))) h.holds)
                    whole (omega (arith, kept))))
            | inr r ↦
                simp (r, cjson_min-right b.length (b.offset + 1) (omega (arith, h.size)))
                  (rw (copy-ok (b.offset + 1) h.block exact (omega arith) (omega arith)) (
                    rw (store-ok b.offset 0 (copied (b.offset + 1) h.block exact) (omega arith)) (
                      returns (
                        text refl prints
                          (Holds-ended h.block.bytes _ out
                            (λ k lt.
                              update_below k b.offset 0 _ (omega arith)
                              ∙ chosen k (b.offset + 1) _ _ (omega arith))
                            (update_at (length out) b.offset 0 _ (sym at)) h.holds)
                          whole (omega (arith, kept))))))
          ])
          | inr e ↦ simp e (returns (nothing (omega (arith, kept))))
        ])

    free_buffer-Keeps :
        (m : Memory) (b b' : PrintBuffer)
        → Follows b b'
        → live b ≡ 1
        → Keeps 1 m b.memory
        → Keeps 0 m (free_buffer b')
    unfolding cjson_dealloc
    free_buffer-Keeps m b b' f l k = ground (arith, f.balance)

    finish-TextOf :
        (item : Option (CJson D)) (m : Memory) (b : PrintBuffer) (r : Bool × PrintBuffer)
        → live b ≡ 1
        → Keeps 1 m b.memory
        → Printed (ItemDone item) b r
        → Returns (TextOf item m) (
            if r.0
            then (update_offset r.1 >>= fit grant reallocate fresh)
            else ok (none, free_buffer r.1))
    finish-TextOf item m b _ l k (stopped {b'} f) =
        returns (nothing (free_buffer-Keeps m b b' f l k))
    finish-TextOf item m b _ l k (printed {b'} q f) =
        let d = q.value.done in
        Returns-bind (update_offset-Moved ([] ++ d.front) d.rest b' d.nul_free d.has d.offset)
          λ b'' moved.
            Returns-mono
              (fit-TextOf q.x q.value.out m b'' q.value.prints
                (subst (λ t. Has (t ++ 0 ∷ []) b'') (sym d.split) moved.has)
                (moved.offset ∙ ap length (sym d.split))
                (omega (
                  arith,
                  k,
                  l,
                  f.balance,
                  ap (λ (o : Option Block). match_option {B = ℕ} o 0 (λ _. 1)) d.has.is,
                  ap (λ (x : Memory). x.allocs) moved.same.memory,
                  ap (λ (x : Memory). x.frees) moved.same.memory,
                )))
              (λ r t. subst (λ i. TextOf i m r) (sym q.is) t)

    -- What `cjson_print_buffered` returns behind the value.
    pub buffered-TextOf :
        (item : Option (CJson D)) (m : Memory) (b : PrintBuffer) (r : Bool × PrintBuffer)
        → live b ≡ 1
        → Keeps 1 m b.memory
        → Printed (ItemDone item) b r
        → Returns
            (TextOf item m)
            (if r.0 then ok (r.1.buffer, r.1.memory) else ok (none, free_buffer r.1))
    buffered-TextOf item m b _ l k (stopped {b'} f) =
        returns (nothing (free_buffer-Keeps m b b' f l k))
    buffered-TextOf item m b _ l k (printed {b'} q f) =
        let d = q.value.done in
        let whole = ap (λ t. t ++ 0 ∷ []) (sym d.split) in
        let total = length-append q.value.out (0 ∷ []) in
        subst (λ (o : Option Block). Returns (TextOf item m) (ok (o, b'.memory))) (sym d.has.is)
          (returns (
            text q.is q.value.prints (subst (Holds d.has.block.bytes 0) whole d.has.holds)
              (omega (arith, ap length whole, total, d.has.fits, d.has.size))
              (omega (
                arith,
                k,
                l,
                f.balance,
                ap (λ (o : Option Block). match_option {B = ℕ} o 0 (λ _. 1)) d.has.is,
              ))))

    pub print_impl-TextOf :
        (item : Option (CJson D)) (m : Memory)
        → NulFree? item
        → Returns (TextOf item m) (print_impl doubles libc grant reallocate fresh item format m)
    unfolding print_impl cjson_alloc cjson_dealloc
    print_impl-TextOf item m n = elim (Bool-cases (grant m.requests default_buffer_size)) [
      | inl e ↦ simp e (
          Returns-bind
            (print_item-Done item _ n
              (new_buffer-Ready _ default_buffer_size false _ refl (λ z. absurd (omega arith))))
            (λ r p. finish-TextOf item m _ r refl (omega arith) p))
      | inr e ↦ simp e (returns (nothing (omega arith)))
    ]
