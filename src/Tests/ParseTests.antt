-- ===== src/Tests/ParseTests.antt =====
-- src/parse.rs: runs of the model, and the theorems at concrete inputs.
use rust_json_port_mortem.Base.{ℕ, ◌≡◌, refl, none, some, [], ◌∷◌, Outcome, ok, true}
use rust_json_port_mortem.Model.{Bytes, node, nil, cons, pos}
use rust_json_port_mortem.Parse.State.{read}
use rust_json_port_mortem.Alloc.{cjson_alloc, cjson_dealloc}
use rust_json_port_mortem.Manip.Delete.{cjson_delete}
use rust_json_port_mortem.Parse.Buffer.{
  skip_loop, buffer_skip_whitespace, slice_eq, matches_at, skip_utf8_bom,
}
use rust_json_port_mortem.Parse.Hex.{hex_digit, hex4_loop, parse_hex4}
use rust_json_port_mortem.Parse.Utf16.{
  utf8_shape, write_tail, utf8_bytes, second_code, utf16_literal_to_utf8,
}
use rust_json_port_mortem.Parse.Text.{
  write_bytes, unescape, scan_loop, escape_sequence, copy_loop, copy_string, allocate_string,
  parse_string,
}
use rust_json_port_mortem.Parse.Number.{
  get_decimal_point, saturate, is_number_byte, number_loop, copy_bytes, convert_number,
  parse_number,
}
use rust_json_port_mortem.Parse.Kind.{starts_with, next_is, value_kind, skip}
use rust_json_port_mortem.Parse.Value.{
  after_item, close_container, open_container, array_loop, after_name, object_loop, parse_array,
  parse_object, dispatch, parse_value,
}
use rust_json_port_mortem.Parse.Entry.{
  ParseResult, no_error, finish_parse_failure, cstr_len, finish_parse, parse_root, parse_at,
  cjson_parse_with_opts,
}
use rust_json_port_mortem.Tests.{input, no_memory, always, libc, document}

-- The whole module of the program, for tests by evaluation.
run : Bytes → Outcome (ParseResult ℕ)
unfolding read cjson_alloc cjson_dealloc cjson_delete skip_loop buffer_skip_whitespace slice_eq
    matches_at skip_utf8_bom hex_digit hex4_loop parse_hex4 utf8_shape write_tail utf8_bytes
    second_code utf16_literal_to_utf8 write_bytes unescape scan_loop escape_sequence copy_loop
    copy_string allocate_string parse_string get_decimal_point saturate is_number_byte number_loop
    copy_bytes convert_number parse_number starts_with next_is value_kind skip after_item
    close_container open_container array_loop after_name object_loop parse_array parse_object
    dispatch parse_value finish_parse_failure cstr_len finish_parse parse_root parse_at
    cjson_parse_with_opts
run text = cjson_parse_with_opts libc always (some (0, input text)) true no_error no_memory

document_parses :
    run document
    ≡ ok (record {
      item = some (
          node 64 none (pos 0) 0 none (
            cons
              (node 32 none (pos 0) 0 (some (b'a' ∷ [])) (
                cons
                  (node 8 none (pos 12) 12 none nil)
                  (cons (node 16 (some (0xC3 ∷ 0xA9 ∷ [])) (pos 0) 0 none nil) nil)))
              nil));
      return_parse_end = some 22;
      error = no_error;
      memory = record { requests = 7; allocs = 7; frees = 1 };
    })
unfolding run
document_parses = refl

-- `\u` with four bytes that are no digits, the last of them a backslash: the string is a nul and the quote
-- that closes it.
digits_that_are_none :
    run (34 ∷ 92 ∷ b'u' ∷ b'z' ∷ b'z' ∷ b'z' ∷ 92 ∷ 92 ∷ 34 ∷ 0 ∷ [])
    ≡ ok (record {
      item = some (node 16 (some (0 ∷ 34 ∷ [])) (pos 0) 0 none nil);
      return_parse_end = some 9;
      error = no_error;
      memory = record { requests = 2; allocs = 2; frees = 0 };
    })
unfolding run
digits_that_are_none = refl
