-- ===== src/Manip/Minify/Length.antt =====
-- src/manip.rs: `cjson_minify` ends, and its writing pointer does not overtake the reading one.
use rust_json_port_mortem.Base.{
  ℕ, zero, suc, ◌+◌, ◌≤◌, ◌≡◌, refl, some, [], ◌∷◌, ◌++◌, arith, length, length-append,
}
use rust_json_port_mortem.Model.{Bytes, behind}
use rust_json_port_mortem.Manip.Minify.{
  skip_oneline_comment, skip_multiline_comment, minify_string, minify_step, minify_loop,
  cjson_minify,
}

length-skip_oneline_comment : (p : Bytes) → length (skip_oneline_comment p) ≤ length p
unfolding skip_oneline_comment
length-skip_oneline_comment [] = omega arith
length-skip_oneline_comment (c ∷ p) = ground (arith, length-skip_oneline_comment p)

length-behind : (p : Bytes) → length (behind p) ≤ length p
length-behind [] = omega arith
length-behind (c ∷ p) = omega arith

length-skip_multiline_comment : (p : Bytes) → length (skip_multiline_comment p) ≤ length p
unfolding skip_multiline_comment
length-skip_multiline_comment [] = omega arith
length-skip_multiline_comment (c ∷ p) =
    ground (arith, length-skip_multiline_comment p, length-behind p)

length-minify_string :
    (p : Bytes) → length (minify_string p).0 + length (minify_string p).1 ≤ length p
unfolding minify_string
length-minify_string [] = omega arith
length-minify_string (c ∷ []) = omega arith
length-minify_string (c ∷ d ∷ p) =
    ground (arith, length-minify_string p, length-minify_string (d ∷ p))

-- A round passes at least the byte that it looks at, and writes no more than it passes.
length-minify_step :
    (c : ℕ) (p : Bytes)
    → (length (minify_step c p).0 + length (minify_step c p).1 ≤ suc (length p))
      × (length (minify_step c p).1 ≤ length p)
unfolding minify_step
length-minify_step c p = ground (
  arith,
  length-minify_string p,
  length-behind p,
  length-skip_oneline_comment (behind p),
  length-skip_multiline_comment (behind p),
)

minify_loop-total :
    (f : ℕ) (p : Bytes)
    → length p ≤ f
    → (out : Bytes) × (minify_loop f p ≡ some out) × (length out ≤ length p)
unfolding minify_loop
minify_loop-total f [] h = ([], refl, omega arith)
minify_loop-total zero (c ∷ p) h = absurd (omega arith)
minify_loop-total (suc f) (c ∷ p) h =
    let shorter = length-minify_step c p in
    let (out, e, short) = minify_loop-total f (minify_step c p).1 (omega (arith, shorter)) in
    (
      (minify_step c p).0 ++ out,
      rw e refl,
      omega (arith, shorter, short, length-append (minify_step c p).0 out),
    )

-- `cjson_minify` ends, and its result fits into the text that it overwrites.
pub cjson_minify-total :
    (json : Bytes) → (out : Bytes) × (cjson_minify json ≡ some out) × (length out ≤ length json)
unfolding cjson_minify
cjson_minify-total json = minify_loop-total (length json) json (omega arith)
