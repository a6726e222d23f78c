-- ===== src/Print/Grammar.antt =====
-- src/print.rs: the text of a tree, as a grammar.
use rust_json_port_mortem.Base.{
  ℕ, ◌+◌, ◌<◌, ◌≡◌, Bool, Option, some, [], ◌∷◌, ◌++◌, bit_and, replicate,
}
use rust_json_port_mortem.Model.{
  Bytes, ℤ, CJson, node, Children, nil, cons, cjson_false, cjson_true, cjson_null, cjson_number,
  cjson_string, cjson_array, cjson_object, cjson_raw, cjson_nesting_limit,
}
use rust_json_port_mortem.Manip.Lookup.{string}
use rust_json_port_mortem.Parse.Number.{Libc}
use rust_json_port_mortem.Print.Number.{Doubles, number_text, with_point}
use rust_json_port_mortem.Print.Text.Escape.{quoted, NoNul?}
use rust_json_port_mortem.Print.Value.{null_text, false_text, true_text, if_format, if_last}

abbrev pub base_type : ℕ → ℕ
base_type t = bit_and t 0xFF

module _ (format : Bool) where
  -- What stands between two elements, before a key, between a key and its value, and behind a
  -- member.
  abbrev pub comma : {D : Type 0} → Children D → Bytes
  comma next = if_last next [] (b',' ∷ if_format format (b' ' ∷ []))

  abbrev pub tabs : ℕ → Bytes
  tabs depth = if_format format (replicate depth b'\t')

  abbrev pub before_value : Bytes
  before_value = b':' ∷ if_format format (b'\t' ∷ [])

  abbrev pub behind_value : {D : Type 0} → Children D → Bytes
  behind_value next = if_last next [] (b',' ∷ []) ++ if_format format (b'\n' ∷ [])

  abbrev pub brace : Bytes
  brace = b'{' ∷ if_format format (b'\n' ∷ [])

module _ {D : Type 0} (doubles : Doubles D) (libc : Libc D) (format : Bool) where
  mutual
    -- The texts of an item at a depth,
    pub data Prints : ℕ → CJson D → Bytes → Type 0 where
      is_null :
          {n t : ℕ} {v s : Option Bytes} {i : ℤ} {d : D} {c : Children D}
          → base_type t ≡ cjson_null
          → Prints n (node t v i d s c) null_text
      is_false :
          {n t : ℕ} {v s : Option Bytes} {i : ℤ} {d : D} {c : Children D}
          → base_type t ≡ cjson_false
          → Prints n (node t v i d s c) false_text
      is_true :
          {n t : ℕ} {v s : Option Bytes} {i : ℤ} {d : D} {c : Children D}
          → base_type t ≡ cjson_true
          → Prints n (node t v i d s c) true_text
      is_number :
          {n t : ℕ} {v s : Option Bytes} {i : ℤ} {d : D} {c : Children D} {text : Bytes}
          → base_type t ≡ cjson_number
          → number_text doubles libc d i ≡ some text
          → Prints n (node t v i d s c) (with_point doubles libc text)
      is_raw :
          {n t : ℕ} {v s : Option Bytes} {i : ℤ} {d : D} {c : Children D} {text : Bytes}
          → base_type t ≡ cjson_raw
          → v ≡ some text
          → Prints n (node t v i d s c) text
      is_string :
          {n t : ℕ} {v s : Option Bytes} {i : ℤ} {d : D} {c : Children D}
          → base_type t ≡ cjson_string
          → Prints n (node t v i d s c) (quoted v)
      is_array :
          {n t : ℕ} {v s : Option Bytes} {i : ℤ} {d : D} {c : Children D} {out : Bytes}
          → base_type t ≡ cjson_array
          → n < cjson_nesting_limit
          → Elements (n + 1) c out
          → Prints n (node t v i d s c) ((b'[' ∷ out) ++ b']' ∷ [])
      is_object :
          {n t : ℕ} {v s : Option Bytes} {i : ℤ} {d : D} {c : Children D} {out : Bytes}
          → base_type t ≡ cjson_object
          → n < cjson_nesting_limit
          → Members (n + 1) c out
          → Prints n (node t v i d s c) ((brace format ++ out) ++ (tabs format n ++ b'}' ∷ []))

    -- of the elements of an array,
    pub data Elements : ℕ → Children D → Bytes → Type 0 where
      no_element : {n : ℕ} → Elements n nil []
      element :
          {n : ℕ} {x : CJson D} {next : Children D} {out outs : Bytes}
          → Prints n x out
          → Elements n next outs
          → Elements n (cons x next) ((out ++ comma format next) ++ outs)

    -- and of the members of an object.
    pub data Members : ℕ → Children D → Bytes → Type 0 where
      no_member : {n : ℕ} → Members n nil []
      member :
          {n : ℕ} {x : CJson D} {next : Children D} {out outs : Bytes}
          → Prints n x out
          → Members n next outs
          → Members n (cons x next) (
              ((((tabs format n ++ quoted (string x)) ++ before_value format) ++ out)
                ++ behind_value format next)
              ++ outs)

-- No text of the tree has a nul.
unfoldable mutual
  pub NulFree : {D : Type 0} → CJson D → Type 0
  NulFree (node t v i d s c) = NoNul? v × NoNul? s × NulFreeAll c

  pub NulFreeAll : {D : Type 0} → Children D → Type 0
  NulFreeAll nil = Unit
  NulFreeAll (cons x next) = NulFree x × NulFreeAll next
