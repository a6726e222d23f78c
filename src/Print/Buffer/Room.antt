-- ===== src/Print/Buffer/Room.antt =====
-- src/print.rs: what a print buffer holds, behind the stores, `ensure` and `update_offset`.
use rust_json_port_mortem.Base.{
  ℕ, zero, suc, ◌+◌, ◌-◌, ◌≤◌, ◌<◌, ◌≡◌, refl, subst, ◌∙◌, some, [], ◌∷◌, ◌++◌, append_assoc,
  append-nil, arith, ok, Returns, returns, Returns-bind, Returns-mono, ◌==◌, lt→ltb, if◌then◌else◌,
  length, length-append,
}
use rust_json_port_mortem.Model.{Bytes}
use rust_json_port_mortem.Manip.Lookup.Found.{NoNul}
use rust_json_port_mortem.Print.Buffer.{
  Block, PrintBuffer, store, store_all, write, length_from, update_offset,
}

-- From an offset on, there are these bytes.
abbrev pub Holds : (ℕ → ℕ) → ℕ → Bytes → Type 0
Holds f o [] = Unit
Holds f o (c ∷ cs) = (f o ≡ c) × Holds f (o + 1) cs

pub Holds-at : (f : ℕ → ℕ) (o o' : ℕ) (xs : Bytes) → o ≡ o' → Holds f o xs → Holds f o' xs
Holds-at f o o' xs e h = subst (λ k. Holds f k xs) e h

pub Holds-append :
    (f : ℕ → ℕ) (o : ℕ) (xs ys : Bytes)
    → Holds f o xs
    → Holds f (o + length xs) ys
    → Holds f o (xs ++ ys)
Holds-append f o [] ys h k = Holds-at f (o + 0) o ys (omega arith) k
Holds-append f o (x ∷ xs) ys (e, h) k = (
  e,
  Holds-append f (o + 1) xs ys h
      (Holds-at f (o + suc (length xs)) (o + 1 + length xs) ys (omega arith) k),
)

pub Holds-left : (f : ℕ → ℕ) (o : ℕ) (xs ys : Bytes) → Holds f o (xs ++ ys) → Holds f o xs
Holds-left f o [] ys h = tt
Holds-left f o (x ∷ xs) ys (e, h) = (e, Holds-left f (o + 1) xs ys h)

pub Holds-right :
    (f : ℕ → ℕ) (o : ℕ) (xs ys : Bytes) → Holds f o (xs ++ ys) → Holds f (o + length xs) ys
Holds-right f o [] ys h = Holds-at f o (o + 0) ys (omega arith) h
Holds-right f o (x ∷ xs) ys (e, h) =
    Holds-at f (o + 1 + length xs) (o + suc (length xs)) ys (omega arith)
      (Holds-right f (o + 1) xs ys h)

pub Holds-agree :
    (f g : ℕ → ℕ) (o : ℕ) (xs : Bytes)
    → ((k : ℕ) → k < o + length xs → g k ≡ f k)
    → Holds f o xs
    → Holds g o xs
Holds-agree f g o [] same h = tt
Holds-agree f g o (x ∷ xs) same (e, h) =
    (same o (omega arith) ∙ e, Holds-agree f g (o + 1) xs (λ k lt. same k (omega arith)) h)

-- Stores within a block leave the bytes below them as they are.
record Stored (o : ℕ) (cs : Bytes) (p p' : Block) : Type 0 where
  size : p'.size ≡ p.size
  holds : Holds p'.bytes o cs
  below : (k : ℕ) → k < o → p'.bytes k ≡ p.bytes k

pub store-ok :
    (o c : ℕ) (p : Block)
    → o < p.size
    → store o c p ≡ ok (record p { bytes = λ k. if k == o then c else p.bytes k })
unfolding store
store-ok o c p h = rw (lt→ltb o p.size h) refl

pub update_self : (o c d : ℕ) → (if o == o then c else d) ≡ c
update_self o c d = ground arith

pub update_below : (k o c d : ℕ) → k < o → (if k == o then c else d) ≡ d
update_below k o c d h = ground arith

store_all-Stored :
    (o : ℕ) (cs : Bytes) (p : Block)
    → o + length cs ≤ p.size
    → Returns (Stored o cs p) (store_all o cs p)
unfolding store_all
store_all-Stored o [] p h = returns (record { size = refl; holds = tt; below = λ k lt. refl })
store_all-Stored o (c ∷ cs) p h =
    let p1 = record p { bytes = λ k. if k == o then c else p.bytes k } in
    rw (store-ok o c p (omega arith)) (
      Returns-mono (store_all-Stored (o + 1) cs p1 (omega arith)) λ p' s. record {
        size = s.size;
        holds = (s.below o (omega arith) ∙ update_self o c (p.bytes o), s.holds);
        below = λ k lt. s.below k (omega arith) ∙ update_below k o c (p.bytes k) lt;
      })

-- The buffer's block has the size that the buffer says, and begins with these bytes.
pub record Has (text : Bytes) (b : PrintBuffer) : Type 0 where
  pub block : Block
  pub is : b.buffer ≡ some block
  pub size : block.size ≡ b.length
  pub holds : Holds block.bytes 0 text
  pub fits : length text ≤ b.length

pub Has-left : (xs ys : Bytes) (b : PrintBuffer) → Has (xs ++ ys) b → Has xs b
Has-left xs ys b h = record {
  block = h.block;
  is = h.is;
  size = h.size;
  holds = Holds-left h.block.bytes 0 xs ys h.holds;
  fits = omega (arith, length-append xs ys, h.fits);
}

-- Two states of a buffer that differ in its block and its offset only.
pub record SameBut (b b' : PrintBuffer) : Type 0 where
  pub length : b'.length ≡ b.length
  pub depth : b'.depth ≡ b.depth
  pub noalloc : b'.noalloc ≡ b.noalloc
  pub format : b'.format ≡ b.format
  pub memory : b'.memory ≡ b.memory

-- Stores behind the text that the buffer has.
pub record Wrote (text cs : Bytes) (b b' : PrintBuffer) : Type 0 where
  pub has : Has (text ++ cs) b'
  pub same : SameBut b b'
  pub offset : b'.offset ≡ b.offset

pub write-Wrote :
    (text cs : Bytes) (o : ℕ) (b : PrintBuffer)
    → Has text b
    → o ≡ length text
    → o + length cs ≤ b.length
    → Returns (Wrote text cs b) (write o cs b)
unfolding write
write-Wrote text cs o b h at room = rw h.is (
    Returns-bind (store_all-Stored o cs h.block (omega (arith, h.size))) λ p' s. returns (record {
      has = record {
        block = p';
        is = refl;
        size = s.size ∙ h.size;
        holds =
            Holds-append p'.bytes 0 text cs
              (Holds-agree h.block.bytes p'.bytes 0 text (λ k lt. s.below k (omega arith)) h.holds)
              (Holds-at p'.bytes o (0 + length text) cs (omega arith) s.holds);
        fits = omega (arith, length-append text cs);
      };
      same = record { length = refl; depth = refl; noalloc = refl; format = refl; memory = refl };
      offset = refl;
    }))

SameBut-trans : {b c d : PrintBuffer} → SameBut b c → SameBut c d → SameBut b d
SameBut-trans p q = record {
  length = q.length ∙ p.length;
  depth = q.depth ∙ p.depth;
  noalloc = q.noalloc ∙ p.noalloc;
  format = q.format ∙ p.format;
  memory = q.memory ∙ p.memory;
}

pub Wrote-nil : (text : Bytes) (b : PrintBuffer) → Has text b → Wrote text [] b b
Wrote-nil text b h = record {
  has = rw (append-nil text) h;
  same = record { length = refl; depth = refl; noalloc = refl; format = refl; memory = refl };
  offset = refl;
}

pub Wrote-trans :
    (text cs ds : Bytes) (b c d : PrintBuffer)
    → Wrote text cs b c
    → Wrote (text ++ cs) ds c d
    → Wrote text (cs ++ ds) b d
Wrote-trans text cs ds b c d p q = record {
  has = subst (λ t. Has t d) (append_assoc text cs ds) q.has;
  same = SameBut-trans p.same q.same;
  offset = q.offset ∙ p.offset;
}

length_from-end :
    (left o : ℕ) (f : ℕ → ℕ) (rest : Bytes)
    → NoNul rest
    → Holds f o (rest ++ 0 ∷ [])
    → length rest < left
    → length_from left o f ≡ ok (length rest)
unfolding length_from
length_from-end zero o f rest n h lt = absurd (omega arith)
length_from-end (suc left) o f [] n h lt = ground arith
length_from-end (suc left) o f (c ∷ rest) n h lt =
    ground (arith, length_from-end left (o + 1) f rest n.1 h.1)

-- `update_offset` moves the offset to the nul behind the text.
pub record Moved (text : Bytes) (b b' : PrintBuffer) : Type 0 where
  pub has : Has (text ++ 0 ∷ []) b'
  pub same : SameBut b b'
  pub offset : b'.offset ≡ length text

pub update_offset-Moved :
    (pre rest : Bytes) (b : PrintBuffer)
    → NoNul rest
    → Has ((pre ++ rest) ++ 0 ∷ []) b
    → b.offset ≡ length pre
    → Returns (Moved (pre ++ rest) b) (update_offset b)
unfolding update_offset
update_offset-Moved pre rest b n h at =
    let total = length-append (pre ++ rest) (0 ∷ []) in
    let both = length-append pre rest in
    let found =
      length_from-end (h.block.size - b.offset) b.offset h.block.bytes rest n
        (Holds-at h.block.bytes (0 + length pre) b.offset (rest ++ 0 ∷ []) (omega arith) (
          Holds-right h.block.bytes 0 pre (rest ++ 0 ∷ [])
            (subst (Holds h.block.bytes 0) (append_assoc pre rest (0 ∷ [])) h.holds)))
        (omega (arith, h.size, h.fits, total, both)) in
    rw h.is (
      rw found (
        returns (record {
          has = record {
            block = h.block;
            is = refl;
            size = h.size;
            holds = h.holds;
            fits = h.fits;
          };
          same = record {
            length = refl;
            depth = refl;
            noalloc = refl;
            format = refl;
            memory = refl;
          };
          offset = omega (arith, both);
        })))
