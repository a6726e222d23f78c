-- ===== src/Utils/Find/Result.antt =====
-- src/utils.rs: `cJSONUtils_FindPointerFromObjectTo` finds what is there.
use rust_json_port_mortem.Base.{
  ℕ, ◌+◌, ◌≡◌, refl, Bool, true, Option, none, some, arith, ok, Returns, returns, Returns-bind,
  Returns-mono, Returns-branch,
}
use rust_json_port_mortem.Model.{Bytes, CJson, node, Children, nil, cons}
use rust_json_port_mortem.Alloc.{Memory, Grant, cjson_alloc}
use rust_json_port_mortem.Manip.Lookup.{type_}
use rust_json_port_mortem.Utils.Pointer.Resolve.{cjson_utils_get_pointer_case_sensitive}
use rust_json_port_mortem.Utils.Pointer.Resolve.Walk.{arrived}
use rust_json_port_mortem.Utils.Find.{
  cjson_utils_strdup, find_pointer, find_below, cjson_utils_find_pointer_from_object_to,
}
use rust_json_port_mortem.Utils.Pointer.Resolve.Walk.{cjson_utils_get_pointer_case_sensitive-Walk}
use rust_json_port_mortem.Utils.Find.Located.{
  IsAddressable, AreAddressable, IsAway, Located, located, away, Below, below, not_below, Rest,
  Rest-all, Rest-next, extend-Below,
}

module _ (grant : Grant) (grants : (n size : ℕ) → grant n size ≡ true) where
  module _ {D : Type 0} (is_target : CJson D → Bool) where
    mutual
      unfolding find_pointer find_below IsAddressable IsAway cjson_utils_strdup cjson_alloc

      item-Located :
          (x : CJson D) (m : Memory)
          → IsAddressable x
          → Returns (Located is_target x m) (find_pointer grant is_target x m)
      item-Located (node t v i d s c) m (contains, a) =
          let x = node t v i d s c in
          Returns-branch (is_target x)
            (λ e. rw (grants m.requests 1) (returns (located refl arrived e (omega arith))))
            λ e. Returns-mono (Members-Located c x 0 m (Rest-all t x refl contains) a) (λ r b.
              elim b [ below f w e' k ↦ located f w e' k | not_below f w k ↦ away f (e, w) k ])

      Members-Located :
          (c : Children D) (x : CJson D) (k : ℕ) (m : Memory)
          → Rest x k c
          → AreAddressable c
          → Returns (Below is_target x c m) (find_below grant is_target (type_ x) k c m)
      Members-Located nil x k m rest a = returns (not_below refl tt (omega arith))
      Members-Located (cons cur next) x k m rest a =
          Returns-bind (item-Located cur m a.0) (λ r found. elim found [
            | located f w e keeps ↦
                simp f (extend-Below grant grants is_target x cur _ k next _ m r.1 rest w e keeps)
            | away f w keeps ↦ simp f (
                Returns-mono (Members-Located next x (k + 1) r.1 (Rest-next x cur k next rest) a.1)
                  (λ r' b. elim b [
                    | below f' w' e' k' ↦ below f' w' e' (omega (arith, keeps, k'))
                    | not_below f' w' k' ↦ not_below f' (w, w') (omega (arith, keeps, k'))
                  ]))
          ])

    -- If the allocator refuses nothing and every item of the tree can be reached by a pointer, the
    -- search returns a pointer to the target, in one block that it keeps, or null and no block, and
    -- then no item of the tree is the target.
    pub cjson_utils_find_pointer_from_object_to-Located :
        (object : CJson D) (m : Memory)
        → IsAddressable object
        → Returns
            (Located is_target object m)
            (cjson_utils_find_pointer_from_object_to grant (some object) (some is_target) m)
    unfolding cjson_utils_find_pointer_from_object_to
    cjson_utils_find_pointer_from_object_to-Located = item-Located

    -- The pointer that was found is resolved to the target.
    pub data Resolved (object : CJson D) (r : Option Bytes × Memory) : Type 0 where
      resolved :
          {p : Bytes} {y : CJson D}
          → r.0 ≡ some p
          → cjson_utils_get_pointer_case_sensitive (some object) (some p) ≡ ok (some y)
          → is_target y ≡ true
          → Resolved object r
      nowhere : r.0 ≡ none → IsAway is_target object → Resolved object r

    -- Under the same conditions `cJSONUtils_GetPointerCaseSensitive` leads from the object to the
    -- target by the pointer that was found, if the target is in the tree.
    pub cjson_utils_find_pointer_from_object_to-Resolved :
        (object : CJson D) (m : Memory)
        → IsAddressable object
        → Returns
            (Resolved object)
            (cjson_utils_find_pointer_from_object_to grant (some object) (some is_target) m)
    cjson_utils_find_pointer_from_object_to-Resolved object m a =
        Returns-mono (cjson_utils_find_pointer_from_object_to-Located object m a) (λ r l. elim l [
          | located f w e k ↦
              resolved f (cjson_utils_get_pointer_case_sensitive-Walk object _ _ w) e
          | away f w k ↦ nowhere f w
        ])
