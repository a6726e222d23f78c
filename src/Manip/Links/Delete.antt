-- ===== src/Manip/Links/Delete.antt =====
-- src/manip.rs: `cjson_delete` on items at addresses.
pub mod Texts
pub mod Forest
pub mod Owned
use rust_json_port_mortem.Base.{
  ℕ, zero, suc, Bool, true, false, not, ◌&&◌, Option, none, ◌==◌, if◌then◌else◌, out_of_fuel,
}
use rust_json_port_mortem.Model.{Bytes}
use rust_json_port_mortem.Manip.Delete.{is_reference, is_string_is_const, is_some}
use rust_json_port_mortem.Manip.Links.{
  Store, null, Action, pure, ◌>>=◌, ◌>>◌, next_of, child_of, type_of, valuestring_of, string_of,
  set_valuestring, set_string, free_valuestring, free_string, free_item,
}

-- The part of `cjson_delete` that gives back the texts of an item.
unfoldable pub free_texts : ℕ → ℕ → Action (Unit {0})
free_texts t cur =
    (valuestring_of cur >>= λ v.
    if not (is_reference t) && is_some v
    then free_valuestring cur >> set_valuestring cur none
    else pure tt)
    >> (string_of cur >>= λ s.
        if not (is_string_is_const t) && is_some s
        then free_string cur >> set_string cur none
        else pure tt)

-- `cjson_delete`; the fuel is for the items that it meets, and one for null.
unfoldable pub cjson_delete : ℕ → ℕ → Action (Unit {0})
cjson_delete zero item = λ h. out_of_fuel
cjson_delete (suc fuel) item =
    let recur = cjson_delete fuel in
    if item == null
    then pure tt
    else next_of item >>= λ next. type_of item >>= λ t. child_of item >>= λ child.
        (if not (is_reference t) && not (child == null) then recur child else pure tt)
        >> free_texts t item
        >> free_item item
        >> recur next
