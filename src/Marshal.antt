-- ===== src/Marshal.antt =====
-- src/vm.c: the values that pass between the stack of Lua and the slots of Wren, and the errors for
-- those that may not; src/carrica.c: lcvmGetClassHandle.
pub mod Plain
pub mod Safety
pub mod Types
use carrica.Base.{ℕ, String, Bool, true, false, Option, none, some, ◌&&◌, if◌then◌else◌}
use carrica.Lua.Value.{Value, Light, nil, bool, num, str, table, ref, udata}
use carrica.Lua.Api.{
  T, Index, lua_at, lua_push, lua_pop, lua_pushlightuserdata, lua_equal, lua_gettable_registry,
}
use carrica.Wren.Value.{Wren}
use carrica.Wren.Api.{
  wren_set_slot, wren_set_slot_handle, wren_abort_fiber, wren_has_module, wren_has_variable,
  wren_get_variable,
}
use carrica.World.{share_table_entry, ReRef, World, ok, fault, Cmd, pure, lual_error, ◌>>=◌, ◌>>◌}

-- vmIsValid, at a pointer that is not NULL
abbrev pub vm_is_valid : Cmd Bool
vm_is_valid w = ok w.cvm.vm w

-- The message goes to slot 0 and aborts the fiber; the C function goes on.
abbrev pub wren_error : String → Cmd T
wren_error err = do wren_set_slot 0 (Wren.str err); wren_abort_fiber 0

-- The metatables that luaGetMetaTableType tells apart.
pub data MetaTable : Type 0 where
  sarray stable s_uobj : MetaTable

abbrev pub meta_of : Value → World → Option ℕ
meta_of (ref r) w = (w.refs r).meta
meta_of (udata n) w = w.metatables n
meta_of _ w = none

abbrev push_metatable : Option ℕ → Cmd T
push_metatable none = pure tt
push_metatable (some a) = lua_push (table a)

-- lua_getmetatable pushes nothing if there is no metatable.
abbrev lua_getmetatable : Index → Cmd T
lua_getmetatable i = lua_at i >>= λ v w. push_metatable (meta_of v w) w

-- luaL_getmetatable: nothing is registered under LUA_NAME_S_UOBJ.
abbrev pub lual_getmetatable : MetaTable → Cmd T
lual_getmetatable sarray w = lua_push (table w.sarray) w
lual_getmetatable stable w = lua_push (table w.stable) w
lual_getmetatable s_uobj w = lua_push nil w

-- The values that it pushes stay on the stack.
unfoldable pub lua_get_meta_table_type : Index → Cmd (Option MetaTable)
lua_get_meta_table_type i = do
  lua_getmetatable i
  lual_getmetatable sarray
  is_array ← lua_equal 1 2
  if is_array then pure (some sarray) else do
    lua_pop 1
    lual_getmetatable s_uobj
    is_uobj ← lua_equal 1 2
    if is_uobj then pure (some s_uobj) else do
      lua_pop 1
      lual_getmetatable stable
      is_table ← lua_equal 1 2
      pure (if is_table then some stable else none)

-- `p.ref->handle`, for the pointer that lua_touserdata gives: NULL at what is no user data.
abbrev handle_of : Value → Cmd (Option Wren)
handle_of (ref r) w = ok (w.refs r).handle w
handle_of _ w = fault

-- The branch LUA_TUSERDATA: the index is used again behind luaGetMetaTableType.
set_slot_from_userdata : ℕ → Index → Cmd T
unfolding lua_get_meta_table_type
set_slot_from_userdata slot i = do
  kind ← lua_get_meta_table_type i
  elim kind [
    | none ↦ wren_error "VM -> unknown user data from lua!?"
    | some _ ↦ do h ← lua_at i >>= handle_of; wren_set_slot_handle slot h
  ]

abbrev set_slot_from_value : ℕ → Index → Value → Cmd T
set_slot_from_value slot i nil = wren_set_slot slot Wren.null
set_slot_from_value slot i (num n) = wren_set_slot slot (Wren.num n)
set_slot_from_value slot i (bool b) = wren_set_slot slot (Wren.bool b)
set_slot_from_value slot i (str s) = wren_set_slot slot (Wren.str s)
set_slot_from_value slot i (table _) =
    wren_error "VM -> you may not marshal tables from lua to Wren"
set_slot_from_value slot i (ref _) = set_slot_from_userdata slot i
set_slot_from_value slot i (udata _) = set_slot_from_userdata slot i
set_slot_from_value slot i _ = wren_error "VM -> bad type passed from lua!?"

unfoldable pub wren_set_slot_from_lua : ℕ → Index → Cmd T
unfolding set_slot_from_userdata
wren_set_slot_from_lua slot i = lua_at i >>= set_slot_from_value slot i

-- `ref->pref` as the registry key; it is NULL in no Array or Table.
abbrev pub push_pref : Option ℕ → Cmd T
push_pref none = lua_push nil
push_pref (some r) = do lua_pushlightuserdata (Light.ref r); lua_gettable_registry

abbrev push_reref : ReRef → Cmd T
push_reref r = elim r.kind [
  | share_table_entry ↦ lual_error "VM -> unsupported foreign class passed to luaPushFromWrenSlot()"
  | _ ↦ push_pref r.pref
]

abbrev push_from_wren : Wren → Cmd T
push_from_wren Wren.null = lua_push nil
push_from_wren (Wren.str s) = lua_push (str s)
push_from_wren (Wren.bool b) = lua_push (bool b)
push_from_wren (Wren.num n) = lua_push (num n)
push_from_wren (Wren.foreign n) = λ w. push_reref (w.rerefs n) w
push_from_wren _ = lual_error "VM -> unsupported type passed to luaPushFromWrenSlot()"

unfoldable pub lua_push_from_wren_slot : ℕ → Cmd T
lua_push_from_wren_slot slot w = push_from_wren (w.slots slot) w

abbrev reref_is_safe : ReRef → Bool
reref_is_safe r = elim r.kind [ share_table_entry ↦ false | _ ↦ true ]

abbrev value_is_safe : Wren → World → Bool
value_is_safe Wren.null w = true
value_is_safe (Wren.str _) w = true
value_is_safe (Wren.bool _) w = true
value_is_safe (Wren.num _) w = true
value_is_safe (Wren.foreign n) w = reref_is_safe (w.rerefs n)
value_is_safe _ w = false

unfoldable pub wren_slot_is_lua_safe : ℕ → Cmd Bool
wren_slot_is_lua_safe slot w = ok (value_is_safe (w.slots slot) w) w

abbrev pub slot_handle : ℕ → Cmd (Option Wren)
slot_handle i w = ok (some (w.slots i)) w

-- lcvmGetClassHandle; CARRICA_SAFETY is defined
unfoldable pub lcvm_get_class_handle : String → String → Cmd (Option Wren)
lcvm_get_class_handle m name = do
  has_module ← wren_has_module m
  has_variable ← wren_has_variable m name
  if has_module && has_variable
      then (wren_get_variable m name 0 >> slot_handle 0)
      else lual_error "carrica -> could not find '%s' class in module '%s' in Wren vm"
