-- ===== src/Manip/Minify.antt =====
-- src/manip.rs: `cjson_minify`. The text is its bytes without the nul, of which the code leaves the
-- bytes below `into` as the result; the reading pointer is the bytes behind it,
-- which stay as they are since the code writes below that pointer only.
pub mod Length
use rust_json_port_mortem.Base.{
  ℕ, zero, suc, ◌+◌, Bool, true, false, not, ◌&&◌, ◌||◌, Option, none, some, List, [], ◌∷◌, ◌++◌,
  ◌==◌, if◌then◌else◌, match_option, length,
}
use rust_json_port_mortem.Model.{Bytes, first, behind}

-- The loop of `skip_oneline_comment`
unfoldable pub skip_oneline_comment : Bytes → Bytes
skip_oneline_comment [] = []
skip_oneline_comment (c ∷ input) =
    let next = skip_oneline_comment input in if c == b'\n' then input else next

-- The loop of `skip_multiline_comment`
unfoldable pub skip_multiline_comment : Bytes → Bytes
skip_multiline_comment [] = []
skip_multiline_comment (c ∷ input) =
    let next = skip_multiline_comment input in
    if c == b'*' && first input == b'/' then behind input else next

-- The loop of `minify_string`: what it writes, and the input behind it.
unfoldable pub minify_string : Bytes → Bytes × Bytes
minify_string [] = ([], [])
minify_string (c ∷ []) = (c ∷ [], [])
minify_string (c ∷ d ∷ input) =
    if c == b'"' then (c ∷ [], d ∷ input) else elim (c == b'\\' && d == b'"') [
      | true ↦ let (output, end) = minify_string input in (c ∷ d ∷ output, end)
      | false ↦ let (output, end) = minify_string (d ∷ input) in (c ∷ output, end)
    ]

-- One round of `cjson_minify` on a byte and what stands behind it: what it writes, and the input
-- behind it.
unfoldable pub minify_step : ℕ → Bytes → Bytes × Bytes
minify_step c input =
    if c == b' ' || (c == b'\t' || (c == b'\r' || c == b'\n'))
    then ([], input)
    else if c == b'/'
    then (if first input == b'/'
        then ([], skip_oneline_comment (behind input))
        else if first input == b'*'
        then ([], skip_multiline_comment (behind input))
        else ([], input))
    else if c == b'"'
    then (let (output, end) = minify_string input in (c ∷ output, end))
    else (c ∷ [], input)

-- The loop of `cjson_minify`, on fuel.
unfoldable pub minify_loop : ℕ → Bytes → Option Bytes
minify_loop f [] = some []
minify_loop zero (c ∷ input) = none
minify_loop (suc f) (c ∷ input) =
    let (output, end) = minify_step c input in
    match_option (minify_loop f end) none (λ minified. some (output ++ minified))

-- `cjson_minify`: a text whose loop runs once for each byte at most
unfoldable pub cjson_minify : Bytes → Option Bytes
cjson_minify json = minify_loop (length json) json
