-- ===== src/Tests/PrintExamples.antt =====
-- src/print.rs: the theorems at concrete inputs, and a run of the printer.
use rust_json_port_mortem.Base.{
  ℕ, zero, suc, ◌+◌, ◌≡◌, refl, true, false, Option, some, none, [], ◌∷◌, Outcome, ok, fault, arith,
  Returns, ◌==◌, ltb, leb,
}
use rust_json_port_mortem.Model.{Bytes, CJson, node, nil, cons, pos, negsuc}
use rust_json_port_mortem.Alloc.{Memory, cjson_alloc, cjson_dealloc}
use rust_json_port_mortem.Print.Buffer.{
  Block, PrintBuffer, store, store_all, write, copy, length_from, update_offset, grow, ensure, put,
}
use rust_json_port_mortem.Print.Buffer.Room.{Has}
use rust_json_port_mortem.Print.Buffer.Grow.{Ensured, ensure-Ensured}
use rust_json_port_mortem.Print.Number.{
  Doubles, digits, to_string, format_int, number_text, with_point, print_number,
}
use rust_json_port_mortem.Print.Text.{
  is_short_escape, escape_characters, escape, write_escaped, write_quoted, print_string_ptr,
}
use rust_json_port_mortem.Print.Text.Standard.{IsQuoted, print_string_ptr-IsQuoted}
use rust_json_port_mortem.Print.Grammar.{NulFree}
use rust_json_port_mortem.Print.Value.{
  separate, indent, colon, end_member, open_array, close_array, open_object, close_object,
  print_array, print_object, print_value,
}
use rust_json_port_mortem.Print.Value.Containers.{ValueDone}
use rust_json_port_mortem.Print.Value.Result.{print_value-Done}
use rust_json_port_mortem.Print.Written.{Printed, Ready, Done}
use rust_json_port_mortem.Print.Entry.{
  cjson_min, new_buffer, print_item, fit, print_impl, cjson_print, cjson_print_unformatted,
  cjson_print_buffered, cjson_print_preallocated,
}
use rust_json_port_mortem.Print.Entry.Item.{TextOf}
use rust_json_port_mortem.Print.Entry.Result.{
  Filled, cjson_print-TextOf, cjson_print_unformatted-TextOf, cjson_print_buffered-TextOf,
  cjson_print_preallocated-Filled,
}
use rust_json_port_mortem.Print.Entry.Empty.{cjson_print_buffered-fault}
use rust_json_port_mortem.Parse.Number.{get_decimal_point}
use rust_json_port_mortem.Tests.{always, twice, libc, no_memory}

-- Doubles that are natural numbers.
abbrev doubles : Doubles ℕ
doubles = record {
  is_nan = λ _. false;
  is_infinite = λ _. false;
  eq_int = λ d i. elim i [ pos n ↦ d == n | negsuc _ ↦ false ];
  abs = λ d. d;
  gt = λ a b. ltb b a;
  le = leb;
  sub = λ a b. a;
  mul = λ a b. a;
  epsilon = 0;
  snprintf = λ _ _. none;
}

-- What a block holds at first.
abbrev fresh : ℕ → ℕ → ℕ
fresh _ _ = 255

abbrev number : ℕ → Option Bytes → CJson ℕ
number n name = node 8 none (pos n) n name nil

-- {"a":[12,0],"\n":null}
abbrev tree : CJson ℕ
tree = node 64 none (pos 0) 0 none (
    cons
      (node 32 none (pos 0) 0 (some (b'a' ∷ [])) (cons (number 12 none) (cons (number 0 none) nil)))
      (cons (node 4 none (pos 0) 0 (some (10 ∷ [])) nil) nil))

tree-NulFree : NulFree tree
unfolding NulFree
tree-NulFree = omega arith

abbrev contents : ℕ → Block → Bytes
contents zero p = []
contents (suc n) p = p.bytes 0 ∷ contents n (record p { bytes = λ k. p.bytes (k + 1) })

abbrev text_of : Outcome (Option Block × Memory) → Bytes
text_of r = elim r [ ok (some p, m) ↦ contents p.size p | _ ↦ [] ]

tree_prints :
    text_of (cjson_print_unformatted doubles libc always false fresh (some tree) no_memory)
    ≡ b'{' ∷ b'"' ∷ b'a' ∷ b'"' ∷ b':' ∷ b'[' ∷ b'1' ∷ b'2' ∷ b',' ∷ b'0' ∷ b']' ∷ b',' ∷ b'"'
      ∷ b'\\' ∷ b'n' ∷ b'"' ∷ b':' ∷ b'n' ∷ b'u' ∷ b'l' ∷ b'l' ∷ b'}' ∷ 0 ∷ []
unfolding cjson_print_unformatted print_impl print_item print_value print_array print_object
    separate indent colon end_member open_array close_array open_object close_object fit cjson_min
    copy store store_all write length_from update_offset grow ensure put print_number number_text
    with_point format_int to_string digits print_string_ptr escape_characters is_short_escape
    write_quoted write_escaped escape cjson_alloc cjson_dealloc get_decimal_point
tree_prints = refl

cjson_print-TextOf_example :
    Returns
      (TextOf doubles libc true (some tree) no_memory)
      (cjson_print doubles libc twice true fresh (some tree) no_memory)
cjson_print-TextOf_example =
    cjson_print-TextOf doubles libc twice true fresh (some tree) no_memory tree-NulFree

cjson_print_unformatted-TextOf_example :
    Returns
      (TextOf doubles libc false (some tree) no_memory)
      (cjson_print_unformatted doubles libc always false fresh (some tree) no_memory)
cjson_print_unformatted-TextOf_example =
    cjson_print_unformatted-TextOf doubles libc always false fresh (some tree) no_memory
      tree-NulFree

cjson_print_buffered-TextOf_example :
    Returns
      (TextOf doubles libc true (some tree) no_memory)
      (cjson_print_buffered doubles libc always false fresh (some tree) (pos 1) true no_memory)
cjson_print_buffered-TextOf_example =
    cjson_print_buffered-TextOf doubles libc always false fresh (some tree) no_memory tree-NulFree
      (pos 1) true (λ e. cc e)

cjson_print_preallocated-Filled_example :
    Returns
      (Filled doubles libc false (some tree) (record { size = 23; bytes = fresh 0 }) no_memory)
      (cjson_print_preallocated doubles libc always false fresh
        (some tree)
        (some (record { size = 23; bytes = fresh 0 }))
        (pos 23)
        false
        no_memory)
cjson_print_preallocated-Filled_example =
    cjson_print_preallocated-Filled doubles libc always false fresh (some tree) no_memory
      tree-NulFree (record { size = 23; bytes = fresh 0 }) false

cjson_print_buffered-fault_example :
    cjson_print_buffered doubles libc always false fresh
      (some (node 4 none (pos 0) 0 none nil))
      (pos 0)
      false
      no_memory
    ≡ fault
cjson_print_buffered-fault_example =
    cjson_print_buffered-fault always fresh doubles libc 4 none none (pos 0) 0 nil false no_memory
      refl refl refl

-- An empty buffer of 16 bytes
abbrev empty_buffer : PrintBuffer
empty_buffer = new_buffer (record { size = 16; bytes = fresh 0 }) 16 false false no_memory

empty_buffer-Has : Has [] empty_buffer
empty_buffer-Has = record {
  block = record { size = 16; bytes = fresh 0 };
  is = refl;
  size = refl;
  holds = tt;
  fits = omega arith;
}

ensure-Ensured_example :
    Returns (Ensured false 40 [] empty_buffer) (ensure always false fresh 40 empty_buffer)
ensure-Ensured_example =
    ensure-Ensured always false fresh [] empty_buffer empty_buffer-Has refl 40
      (λ e. absurd (omega arith))

empty_buffer-Ready : Ready false false [] 0 empty_buffer
empty_buffer-Ready = record {
  has = empty_buffer-Has;
  offset = refl;
  depth_is = refl;
  format_is = refl;
  grows = λ e. absurd (omega arith);
}

print_string_ptr-IsQuoted_example :
    (t : Bytes) × IsQuoted (some (1 ∷ b'"' ∷ [])) t
    × Returns
        (Printed (Done false false [] t 0) empty_buffer)
        (print_string_ptr always false fresh (some (1 ∷ b'"' ∷ [])) empty_buffer)
print_string_ptr-IsQuoted_example =
    print_string_ptr-IsQuoted always false fresh false [] 0 (some (1 ∷ b'"' ∷ [])) empty_buffer
      empty_buffer-Ready ((λ e. cc e), ((λ e. cc e), tt))

print_value-Done_example :
    Returns
      (Printed (ValueDone doubles libc false false tree [] 0) empty_buffer)
      (print_value doubles libc always false fresh tree empty_buffer)
print_value-Done_example =
    print_value-Done doubles libc false false always fresh tree [] 0 empty_buffer tree-NulFree
      empty_buffer-Ready
