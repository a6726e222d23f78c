-- ===== src/Manip/Links/Dispose.antt =====
-- src/manip.rs: items that are taken out of an array and deleted, or replaced.
pub mod Result
use rust_json_port_mortem.Base.{ℕ, Bool, true, false, ◌||◌, ◌==◌, if◌then◌else◌}
use rust_json_port_mortem.Model.{ℤ, pos, negsuc}
use rust_json_port_mortem.Manip.Links.{null, Action, pure, ◌>>=◌, ◌>>◌, child_of}
use rust_json_port_mortem.Manip.Links.Operations.{get_array_item, cjson_detach_item_from_array}
use rust_json_port_mortem.Manip.Links.Replace.{replace_links}
use rust_json_port_mortem.Manip.Links.Delete.{cjson_delete}

-- `cjson_delete_item_from_array`
unfoldable pub cjson_delete_item_from_array : ℕ → ℕ → ℤ → Action (Unit {0})
cjson_delete_item_from_array fuel array which =
    cjson_detach_item_from_array array which >>= cjson_delete fuel

-- `cjson_replace_item_via_pointer`
unfoldable pub cjson_replace_item_via_pointer : ℕ → ℕ → ℕ → ℕ → Action Bool
cjson_replace_item_via_pointer fuel parent item replacement =
    if parent == null
    then pure false
    else child_of parent >>= λ child.
        if child == null || replacement == null || item == null
        then pure false
        else if replacement == item
        then pure true
        else replace_links parent item replacement >> cjson_delete fuel item >> pure true

-- `cjson_replace_item_in_array`
unfoldable pub cjson_replace_item_in_array : ℕ → ℕ → ℤ → ℕ → Action Bool
cjson_replace_item_in_array fuel array (negsuc n) newitem = pure false
cjson_replace_item_in_array fuel array (pos which) newitem =
    get_array_item array which >>= λ item. cjson_replace_item_via_pointer fuel array item newitem
