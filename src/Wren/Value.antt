-- ===== src/Wren/Value.antt =====
-- Values in the slots of a Wren VM, by the types that `wrenGetSlotType` tells apart.
use carrica.Base.{ℕ, String, Bool}
use carrica.Lua.Value.{Number}

-- `list a` is the list at address a, `foreign n` the foreign object n; `unknown` is any other
-- object, such as a class.
pub data Wren : Type 0 where
  null : Wren
  bool : Bool → Wren
  num : Number → Wren
  str : String → Wren
  list : ℕ → Wren
  map : ℕ → Wren
  foreign : ℕ → Wren
  unknown : ℕ → Wren

pub data WrenType : Type 0 where
  w_bool w_num w_foreign w_list w_map w_null w_string w_unknown : WrenType

abbrev pub wren_type : Wren → WrenType
wren_type Wren.null = w_null
wren_type (Wren.bool _) = w_bool
wren_type (Wren.num _) = w_num
wren_type (Wren.str _) = w_string
wren_type (Wren.list _) = w_list
wren_type (Wren.map _) = w_map
wren_type (Wren.foreign _) = w_foreign
wren_type (Wren.unknown _) = w_unknown
