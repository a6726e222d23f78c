-- ===== src/Tests/ParseExamples.antt =====
-- src/parse.rs, src/alloc.rs, src/manip.rs: the theorems at concrete inputs.
use rust_json_port_mortem.Base.{
  ℕ, ◌+◌, ◌≤◌, ◌<◌, ◌≡◌, refl, ◌≢◌, none, some, List, [], ◌∷◌, ok, true, false, arith, Returns,
}
use rust_json_port_mortem.Model.{CJson, node, nil, cons, pos}
use rust_json_port_mortem.Alloc.Hooks.{Allocate, AreSound, cjson_init_hooks}
use rust_json_port_mortem.Alloc.Hooks.Sound.{cjson_init_hooks-AreSound}
use rust_json_port_mortem.Manip.Delete.{Frees, owned_all, cjson_delete, cjson_delete-Frees}
use rust_json_port_mortem.Parse.Buffer.{buffer_skip_whitespace}
use rust_json_port_mortem.Parse.Buffer.Skip.{Skipped, buffer_skip_whitespace-Skipped}
use rust_json_port_mortem.Parse.Hex.{parse_hex4}
use rust_json_port_mortem.Parse.Hex.Value.{decimal, small, parse_hex4-digits}
use rust_json_port_mortem.Parse.Utf16.{utf8_bytes, utf16_literal_to_utf8}
use rust_json_port_mortem.Parse.Utf16.Encode.{IsUtf8, utf8_bytes-IsUtf8}
use rust_json_port_mortem.Parse.Utf16.Literal.{IsLiteral, utf16_literal_to_utf8-IsLiteral}
use rust_json_port_mortem.Parse.Text.{parse_string}
use rust_json_port_mortem.Parse.Text.Result.{StringResult, parse_string-StringResult}
use rust_json_port_mortem.Parse.Number.{parse_number}
use rust_json_port_mortem.Parse.Number.Result.{parse_number-Parsed}
use rust_json_port_mortem.Parse.Parsed.{Fresh, fresh, Parsed}
use rust_json_port_mortem.Parse.Value.{parse_value}
use rust_json_port_mortem.Parse.Value.Total.{parse_value-Parsed}
use rust_json_port_mortem.Parse.Entry.{
  no_error, cjson_parse_with_length_opts, cjson_parse_with_opts,
}
use rust_json_port_mortem.Parse.Entry.Total.{Finished}
use rust_json_port_mortem.Parse.Entry.Calls.{
  cjson_parse_with_length_opts-Finished, cjson_parse_with_opts-Finished,
}
use rust_json_port_mortem.Tests.{
  input, no_memory, buffer, always, twice, libc, libc-within, document, misaligned, surrogates,
}

abbrev blank : CJson ℕ
blank = node 0 none (pos 0) 0 none nil

blank-Fresh : Fresh blank
blank-Fresh = fresh 0 (pos 0) 0 none refl refl

cjson_parse_with_opts-Finished_example :
    Returns
      (λ r.
        (n : ℕ) × (n ≤ 22)
        × ((input document).content n ≡ 0)
        × ((k : ℕ) → k < n → (input document).content k ≢ 0)
        × Finished (record { content = (input document).content; length = n + 1 }) 5 no_memory r)
      (cjson_parse_with_opts libc twice (some (5, input document)) true no_error no_memory)
cjson_parse_with_opts-Finished_example =
    cjson_parse_with_opts-Finished libc twice (input document) 5 no_memory true no_error 22
      libc-within refl (omega arith)

cjson_parse_with_length_opts-Finished_example :
    Returns
      (Finished (input misaligned) 5 no_memory)
      (cjson_parse_with_length_opts libc always (some (5, input misaligned)) false no_memory)
cjson_parse_with_length_opts-Finished_example =
    cjson_parse_with_length_opts-Finished libc always (input misaligned) 5 no_memory false
      libc-within

parse_value-Parsed_example :
    Returns
      (Parsed (input document) blank buffer)
      (parse_value libc always (input document) 1001 blank buffer)
parse_value-Parsed_example =
    parse_value-Parsed libc always (input document) 1001 blank buffer libc-within (omega arith)
      (omega arith) (omega arith) blank-Fresh

parse_string-StringResult_example :
    Returns (StringResult (input misaligned) buffer) (parse_string always (input misaligned) buffer)
parse_string-StringResult_example =
    parse_string-StringResult (input misaligned) always buffer (omega arith)

utf16_literal_to_utf8-IsLiteral_example :
    Returns (IsLiteral (input surrogates) 0 12) (utf16_literal_to_utf8 (input surrogates) 0 12)
utf16_literal_to_utf8-IsLiteral_example =
    utf16_literal_to_utf8-IsLiteral (input surrogates) 0 12 (omega arith)

utf8_bytes-IsUtf8_example : (bs : List ℕ) × (utf8_bytes 0x20AC ≡ some bs) × IsUtf8 0x20AC bs
utf8_bytes-IsUtf8_example = utf8_bytes-IsUtf8 0x20AC (omega arith)

parse_number-Parsed_example :
    Returns
      (Parsed (input (b'1' ∷ b'7' ∷ [])) blank buffer)
      (parse_number libc always (input (b'1' ∷ b'7' ∷ [])) blank buffer)
parse_number-Parsed_example =
    parse_number-Parsed libc libc-within always (input (b'1' ∷ b'7' ∷ [])) buffer (omega arith)
      (omega arith) blank-Fresh

buffer_skip_whitespace-Skipped_example :
    Returns
      (Skipped (input (b' ' ∷ b' ' ∷ b'7' ∷ [])) 0)
      (buffer_skip_whitespace (input (b' ' ∷ b' ' ∷ b'7' ∷ [])) 0)
buffer_skip_whitespace-Skipped_example =
    buffer_skip_whitespace-Skipped (input (b' ' ∷ b' ' ∷ b'7' ∷ [])) 0 (omega arith)

parse_hex4-digits_example : parse_hex4 (input surrogates) 2 ≡ ok 0xD83D
parse_hex4-digits_example =
    parse_hex4-digits (input surrogates) 2 (omega arith) (small {d = 3} (omega arith))
      (decimal {d = 8} (omega arith)) (decimal {d = 3} (omega arith)) (small {d = 3} (omega arith))

cjson_delete-Frees_example :
    Frees
      (owned_all (cons blank (cons (node 272 (some []) (pos 0) 0 (some []) nil) nil)))
      no_memory
      (cjson_delete (cons blank (cons (node 272 (some []) (pos 0) 0 (some []) nil) nil)) no_memory)
cjson_delete-Frees_example =
    cjson_delete-Frees (cons blank (cons (node 272 (some []) (pos 0) 0 (some []) nil) nil))
      no_memory

cjson_init_hooks-AreSound_example :
    AreSound
      (cjson_init_hooks (some (record { malloc_fn = some (Allocate.custom 3); free_fn = none })))
cjson_init_hooks-AreSound_example =
    cjson_init_hooks-AreSound
      (some (record { malloc_fn = some (Allocate.custom 3); free_fn = none }))
