-- ===== src/Parse/Entry.antt =====
-- src/parse.rs: `cJSON_ParseWithOpts`, `cJSON_ParseWithLengthOpts`, their two short forms, and the
-- global error. src/alloc.rs: `cstr_len`.
pub mod Total
pub mod Calls
use rust_json_port_mortem.Base.{
  ℕ, zero, suc, ◌+◌, ◌-◌, Bool, true, false, not, ◌||◌, Option, none, some, Outcome, ok,
  out_of_fuel, ◌>>=◌, ltb, leb, ◌==◌, if◌then◌else◌, match_option,
}
use mathlib.Core.Option
use rust_json_port_mortem.Model.{CJson, Children, nil, cons, cjson_nesting_limit}
use rust_json_port_mortem.Alloc.{Memory, Grant, cjson_alloc}
use rust_json_port_mortem.Manip.Delete.{cjson_delete}
use rust_json_port_mortem.Parse.State.{Input, ParseBuffer, read}
use rust_json_port_mortem.Parse.Buffer.{buffer_skip_whitespace, skip_utf8_bom}
use rust_json_port_mortem.Parse.Number.{Libc}
use rust_json_port_mortem.Parse.Kind.{skip}
use rust_json_port_mortem.Parse.Value.{new_item, node_size, parse_value}

-- `json` is the address of the text of the last failure, `none` for null.
pub record GlobalError : Type 0 where
  pub json : Option ℕ
  pub position : ℕ

-- `get_error_ptr`
unfoldable pub get_error_ptr : GlobalError → Option ℕ
get_error_ptr e = Option.map (λ json. json + e.position) e.json

-- What a call leaves behind: its result, the address that it writes to `*return_parse_end` if that
-- pointer is not null, the global error, and the memory.
pub record ParseResult (D : Type 0) : Type 0 where
  pub item : Option (CJson D)
  pub return_parse_end : Option ℕ
  pub error : GlobalError
  pub memory : Memory

abbrev pub no_error : GlobalError
no_error = record { json = none; position = 0 }

module _ {D : Type 0} where
  -- `finish_parse_failure`, for a text at an address and a buffer of this length and offset
  unfoldable pub finish_parse_failure : Option ℕ → (length offset : ℕ) → Memory → ParseResult D
  finish_parse_failure none length offset m = record {
    item = none;
    return_parse_end = none;
    error = no_error;
    memory = m;
  }
  finish_parse_failure (some value) length offset m =
      let position = if ltb offset length then offset else if ltb 0 length then length - 1 else 0 in
      record {
        item = none;
        return_parse_end = some (value + position);
        error = record { json = some value; position = position };
        memory = m;
      }

-- `cstr_len` from an address on, inside of the memory that may be read
module _ (i : Input) where
  unfoldable pub cstr_len : ℕ → ℕ → ℕ → Outcome ℕ
  cstr_len zero p len = out_of_fuel
  cstr_len (suc f) p len =
      let next = cstr_len f (p + 1) (len + 1) in do c ← read i p; if c == 0 then ok len else next

module _ {D : Type 0} (libc : Libc D) (grant : Grant) where
  module _ (i : Input) (value : ℕ) where
    abbrev failure : ParseBuffer → Memory → ParseResult D
    failure b m = finish_parse_failure (some value) i.length b.offset m

    -- What follows a value that was parsed.
    unfoldable pub finish_parse : Bool → CJson D → ParseBuffer → Outcome (ParseResult D)
    finish_parse require_null_terminated item b =
        let success = λ (b' : ParseBuffer).
          let result : ParseResult D = record {
            item = some item;
            return_parse_end = some (value + b'.offset);
            error = no_error;
            memory = b'.memory;
          } in
          result in
        let delete = λ (b' : ParseBuffer). failure b' (cjson_delete (cons item nil) b'.memory) in
        if require_null_terminated
        then (do
          b' ← skip i b
          if leb i.length b'.offset
              then ok (delete b')
              else (do c ← read i b'.offset; ok (if not (c == 0) then delete b' else success b')))
        else ok (success b)

    -- What follows the allocation of the root.
    unfoldable pub parse_root : Bool → Memory → Outcome (ParseResult D)
    parse_root require_null_terminated m = do
      start ← skip_utf8_bom i 0
      b ← skip i (record { offset = start; depth = 0; memory = m })
      (parsed, b') ← parse_value libc grant i (cjson_nesting_limit + 1) (new_item libc grant i) b
      match_option parsed
          (ok (failure b' (cjson_delete (cons (new_item libc grant i) nil) b'.memory)))
          λ item. finish_parse require_null_terminated item b'

    -- `cjson_parse_with_length_opts` of a text that is not null
    unfoldable pub parse_at : Bool → Memory → Outcome (ParseResult D)
    parse_at require_null_terminated m =
        if i.length == 0
        then ok (finish_parse_failure (some value) 0 0 m)
        else (let (granted, memory) = cjson_alloc grant node_size m in
            if not granted
            then ok (finish_parse_failure (some value) i.length 0 memory)
            else parse_root require_null_terminated memory)

  -- `cjson_parse_with_length_opts`: the text is its address and its memory, `none` for null.
  unfoldable pub cjson_parse_with_length_opts :
      Option (ℕ × Input) → Bool → Memory → Outcome (ParseResult D)
  cjson_parse_with_length_opts none require_null_terminated m = ok (finish_parse_failure none 0 0 m)
  cjson_parse_with_length_opts (some (value, i)) require_null_terminated m =
      parse_at i value require_null_terminated m

  -- `cjson_parse_with_opts`: the text ends at its nul, which the buffer takes in. The error of the
  -- last call stays where the text is null.
  unfoldable pub cjson_parse_with_opts :
      Option (ℕ × Input) → Bool → GlobalError → Memory → Outcome (ParseResult D)
  cjson_parse_with_opts none require_null_terminated e m =
      ok (record { item = none; return_parse_end = none; error = e; memory = m })
  cjson_parse_with_opts (some (value, i)) require_null_terminated e m = do
    n ← cstr_len i (i.length + 1) 0 0
    parse_at (record { content = i.content; length = n + 1 }) value require_null_terminated m

  -- `cjson_parse`
  unfoldable pub cjson_parse : Option (ℕ × Input) → GlobalError → Memory → Outcome (ParseResult D)
  cjson_parse value e m = cjson_parse_with_opts value false e m

  -- `cjson_parse_with_length`
  unfoldable pub cjson_parse_with_length : Option (ℕ × Input) → Memory → Outcome (ParseResult D)
  cjson_parse_with_length value m = cjson_parse_with_length_opts value false m
