-- ===== src/Manip/Create/Blocks.antt =====
-- src/manip.rs: the blocks that a new item with a text owns.
use rust_json_port_mortem.Base.{ℕ, Option, none, some, arith}
use rust_json_port_mortem.Model.{Bytes, CJson}
use rust_json_port_mortem.Alloc.{Memory, Grant, Keeps, cjson_alloc, cjson_dealloc}
use rust_json_port_mortem.Manip.Delete.{owned, cjson_delete}
use rust_json_port_mortem.Manip.Duplicate.{cjson_strdup}
use rust_json_port_mortem.Manip.Create.{cjson_create_string, create_text}
use rust_json_port_mortem.Parse.Number.{Libc}

-- The blocks of a result: none of null.
abbrev pub owned_by : {D : Type 0} → Option (CJson D) → ℕ
owned_by none = 0
owned_by (some x) = owned x

-- `cjson_create_string` keeps the blocks that its result owns, and none if it fails, whatever the
-- allocator refuses.
pub cjson_create_string-Keeps :
    {D : Type 0} (libc : Libc D) (grant : Grant) (string : Option Bytes) (m : Memory)
    → (let r = cjson_create_string libc grant string m in Keeps (owned_by r.0) m r.1)
unfolding cjson_create_string create_text cjson_alloc cjson_strdup cjson_delete cjson_dealloc owned
cjson_create_string-Keeps libc grant none m = ground arith
cjson_create_string-Keeps libc grant (some s) m = ground arith
