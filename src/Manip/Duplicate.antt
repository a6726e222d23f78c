-- ===== src/Manip/Duplicate.antt =====
-- src/manip.rs: `cjson_duplicate`, on the memory that the hooks give.
use rust_json_port_mortem.Base.{
  ℕ, ◌+◌, ◌-◌, Bool, true, false, not, Option, none, some, leb, bit_and, if◌then◌else◌,
  match_option, length,
}
use rust_json_port_mortem.Model.{Bytes, CJson, node, Children, nil, cons, snoc, cjson_is_reference}
use rust_json_port_mortem.Alloc.{Memory, Grant, cjson_alloc}
use rust_json_port_mortem.Manip.Delete.{is_string_is_const, cjson_delete}
use rust_json_port_mortem.Parse.Value.{node_size}

abbrev pub cjson_circular_limit : ℕ
cjson_circular_limit = 10000

-- `type_ & !CJSON_IS_REFERENCE`
unfoldable pub without_reference : ℕ → ℕ
without_reference t = t - bit_and t cjson_is_reference

module _ (grant : Grant) where
  -- `cjson_strdup` of a text that is not null; `none` is the null pointer.
  unfoldable pub cjson_strdup : Bytes → Memory → Option Bytes × Memory
  cjson_strdup string m =
      let (granted, m') = cjson_alloc grant (length string + 1) m in
      if granted then (some string, m') else (none, m')

  -- The copy of a text that may be null, and whether the code goes on.
  unfoldable pub copy_text : Bool → Option Bytes → Memory → Bool × (Option Bytes × Memory)
  copy_text shared none m = (true, (none, m))
  copy_text shared (some text) m =
      if shared
      then (true, (some text, m))
      else (let (copy, m') = cjson_strdup text m in
          match_option copy (false, (none, m')) (λ c. (true, (some c, m'))))

module _ {D : Type 0} (grant : Grant) where
  -- `goto_fail` and the `return` behind it
  unfoldable pub goto_fail : CJson D → Memory → Option (CJson D) × Memory
  goto_fail newitem m = (none, cjson_delete (cons newitem nil) m)

  -- The start of `duplicate_rec` up to the children: the new item, and whether the code goes on.
  unfoldable pub copy_fields : CJson D → Memory → Option (CJson D) × Memory
  copy_fields (node t v i d s c) m =
      let (granted, m1) = cjson_alloc grant node_size m in
      if not granted
      then (none, m1)
      else (let type = without_reference t in
          let (copied, (v', m2)) = copy_text grant false v m1 in
          if not copied
          then goto_fail (node type none i d none nil) m2
          else (let (named, (s', m3)) = copy_text grant (is_string_is_const t) s m2 in
              if not named
              then goto_fail (node type v' i d none nil) m3
              else (some (node type v' i d s' nil), m3)))

  abbrev pub with_children : CJson D → Children D → CJson D
  with_children (node t v i d s _) c = node t v i d s c

  unfoldable mutual
    -- `duplicate_rec`
    pub duplicate_rec : CJson D → ℕ → Bool → Memory → Option (CJson D) × Memory
    duplicate_rec (node t v i d s c) depth recurse m =
        let (copy, m') = copy_fields (node t v i d s c) m in
        match_option copy (none, m')
          λ newitem.
            if not recurse then (some newitem, m') else duplicate_loop c depth newitem nil m'

    -- The loop over the children, with the list of the copies so far.
    pub duplicate_loop : Children D → ℕ → CJson D → Children D → Memory → Option (CJson D) × Memory
    duplicate_loop nil depth newitem copies m = (some (with_children newitem copies), m)
    duplicate_loop (cons child next) depth newitem copies m =
        let (copy, m') = duplicate_rec child (depth + 1) true m in
        if leb cjson_circular_limit depth
        then goto_fail (with_children newitem copies) m
        else match_option copy (goto_fail (with_children newitem copies) m')
            λ newchild. duplicate_loop next depth newitem (snoc copies newchild) m'

  -- `cjson_duplicate`
  unfoldable pub cjson_duplicate : Option (CJson D) → Bool → Memory → Option (CJson D) × Memory
  cjson_duplicate none recurse m = (none, m)
  cjson_duplicate (some item) recurse m = duplicate_rec item 0 recurse m
