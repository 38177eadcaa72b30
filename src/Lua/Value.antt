-- ===== src/Lua/Value.antt =====
-- Numbers and values of Lua 5.1 as the sources use them, and `lua_equal` without metamethods.
use text.Mathlib.Text.{◌==◌ as str_eq}
use carrica.Base.{ℕ, String, Bool, true, false, ◌&&◌, ◌==◌}
use carrica.Base.Int.{ℤ, int_eq}

-- A double, as far as the sources look at one: `whole z` is an integer, `fraction z n` the n-th
-- double that is none and that the cast `(int)` truncates to z; zero has one sign.
pub data Number : Type 0 where
  whole : ℤ → Number
  fraction : ℤ → ℕ → Number
  infinity : Bool → Number
  not_a_number : Number

-- The addresses that are registry keys, as light user data. `reref n` is a wren foreign object,
-- and so its first field `type`; `reref_pref n` is its field `pref`. `ref r` is a
-- vmWrenReference, `ref_count r` its field.
pub data Light : Type 0 where
  ref ref_count reref reref_pref : ℕ → Light
  cvm cvm_name load_module : ℕ → Light
  emit_ref sort_ref default_name : Light

-- `ref r` is a full user data that holds the vmWrenReference r; `udata n` is any other.
pub data Value : Type 0 where
  nil : Value
  bool : Bool → Value
  num : Number → Value
  str : String → Value
  table : ℕ → Value
  light : Light → Value
  ref : ℕ → Value
  udata : ℕ → Value
  func : ℕ → Value
  thread : ℕ → Value

pub data LuaType : Type 0 where
  t_nil t_boolean t_number t_string t_table t_lightuserdata t_userdata t_function t_thread : LuaType

abbrev pub lua_type : Value → LuaType
lua_type nil = t_nil
lua_type (bool _) = t_boolean
lua_type (num _) = t_number
lua_type (str _) = t_string
lua_type (table _) = t_table
lua_type (light _) = t_lightuserdata
lua_type (ref _) = t_userdata
lua_type (udata _) = t_userdata
lua_type (func _) = t_function
lua_type (thread _) = t_thread

abbrev pub bool_eq : Bool → Bool → Bool
bool_eq true true = true
bool_eq false false = true
bool_eq _ _ = false

abbrev pub number_eq : Number → Number → Bool
number_eq (whole a) (whole b) = int_eq a b
number_eq (fraction a n) (fraction b m) = int_eq a b && (n == m)
number_eq (infinity a) (infinity b) = bool_eq a b
number_eq _ _ = false

abbrev pub light_eq : Light → Light → Bool
light_eq (Light.ref a) (Light.ref b) = a == b
light_eq (Light.ref_count a) (Light.ref_count b) = a == b
light_eq (Light.reref a) (Light.reref b) = a == b
light_eq (Light.reref_pref a) (Light.reref_pref b) = a == b
light_eq (Light.cvm a) (Light.cvm b) = a == b
light_eq (Light.cvm_name a) (Light.cvm_name b) = a == b
light_eq (Light.load_module a) (Light.load_module b) = a == b
light_eq Light.emit_ref Light.emit_ref = true
light_eq Light.sort_ref Light.sort_ref = true
light_eq Light.default_name Light.default_name = true
light_eq _ _ = false

-- `==` of Lua without metamethods: a NaN equals nothing.
abbrev pub value_eq : Value → Value → Bool
value_eq nil nil = true
value_eq (bool a) (bool b) = bool_eq a b
value_eq (num a) (num b) = number_eq a b
value_eq (str a) (str b) = str_eq a b
value_eq (table a) (table b) = a == b
value_eq (light a) (light b) = light_eq a b
value_eq (ref a) (ref b) = a == b
value_eq (udata a) (udata b) = a == b
value_eq (func a) (func b) = a == b
value_eq (thread a) (thread b) = a == b
value_eq _ _ = false

abbrev pub is_nil : Value → Bool
is_nil nil = true
is_nil _ = false

-- What a table accepts as a key: neither nil nor NaN.
abbrev pub is_key : Value → Bool
is_key nil = false
is_key (num not_a_number) = false
is_key _ = true
