-- ===== src/LuaSide/Library.antt =====
-- src/carrica.c: luaopen_carrica, lua_newmeta and the lists of functions, and the two constants. A C function stands as its name; `cfunction` gives its number as a value of Lua.
pub mod Metatables
pub mod Loaded
pub mod Functions
pub mod Session
use carrica.Base.{true, ℕ, suc, String, Bool, false, Option, none, some, List, [], ◌∷◌, update}
use carrica.Lua.Value.{Value, Light, str, func, table, bool}
use carrica.Lua.Runtime.{Runtime}
use carrica.Lua.Api.{
  T, lua_push, lua_pop, lua_index, lua_take, lua_pushvalue, lua_pushlightuserdata, lua_newtable,
  lua_settable_registry, lua_getglobal, lua_getfield, indexed_table, raw_assign,
}
use carrica.Lifecycle.{stored_system}
use carrica.Vms.{vm_begin}
use carrica.World.{World, ok, Cmd, pure, ◌>>=◌, ◌>>◌}

-- luaL_Reg: a name for Lua, and the C function
abbrev pub Reg : Type 0
Reg = String × String

-- lcvmfunc, lctfunc, lcafunc and lfunc
abbrev pub lcvmfunc : List Reg
lcvmfunc =
    ("release", "lcvmRelease")
    ∷ ("isValid", "lcvmIsValid")
    ∷ ("renew", "lcvmRenew")
    ∷ ("setLoadFunction", "lcvmSetLoadFunction")
    ∷ ("setWrenName", "lcvmSetWrenName")
    ∷ ("handler", "lcvmHandler")
    ∷ ("interpret", "lcvmInterpret")
    ∷ ("getMethod", "lcvmGetMethod")
    ∷ ("freeMethod", "lcvmFreeMethod")
    ∷ ("hasVariable", "lcvmHasVariable")
    ∷ ("hasModule", "lcvmHasModule")
    ∷ ("newArray", "lcvmNewArray")
    ∷ ("newTable", "lcvmNewTable")
    ∷ ("getClassObj", "lcvmGetClass")
    ∷ ("freeClassObj", "lcvmFreeClass")
    ∷ []

abbrev pub lctfunc : List Reg
lctfunc =
    ("ref", "lctRef")
    ∷ ("setRef", "lctSetRef")
    ∷ ("hold", "lctHold")
    ∷ ("release", "lctRelease")
    ∷ []

abbrev pub lcafunc : List Reg
lcafunc =
    ("ref", "lcaRef")
    ∷ ("setRef", "lcaSetRef")
    ∷ ("hold", "lcaHold")
    ∷ ("release", "lcaRelease")
    ∷ []

abbrev pub lfunc : List Reg
lfunc =
    ("hasDebug", "lcHasDebug")
    ∷ ("installModule", "lcInstallModule")
    ∷ ("newVM", "lcNewVM")
    ∷ ("setDebugEmit", "lcSetDebugEmit")
    ∷ ("setSortFunc", "lcSetSortFunc")
    ∷ ("setDefaultWrenName", "lcSetDefaultWrenName")
    ∷ ("version", "lcVersion")
    ∷ []

-- LUA_NAME_WRENVM, LUA_NAME_STABLE, LUA_NAME_SARRAY
pub data MetaName : Type 0 where
  wrenvm_name stable_name sarray_name : MetaName

abbrev pub named_as : MetaName → ℕ → World → World
named_as wrenvm_name a w = record w { wrenvm = a }
named_as stable_name a w = record w { stable = a }
named_as sarray_name a w = record w { sarray = a }

-- luaL_newmetatable, of a name that is not registered before
abbrev pub lual_newmetatable : MetaName → Cmd T
lual_newmetatable m = do λ w. ok tt (named_as m w.new_table w); lua_newtable

module _ ⦃R : Runtime⦄ (cfunction : String → ℕ) where
  -- lua_setfield(L, -2, name), with the value on top
  abbrev pub lua_setfield : String → Cmd T
  lua_setfield name = do a ← lua_index 2 >>= indexed_table; v ← lua_take; raw_assign a (str name) v

  -- luaL_register(L, NULL, list)
  unfoldable pub lual_register : List Reg → Cmd T
  lual_register [] = pure tt
  lual_register ((name, f) ∷ l) = do
    lua_push (func (cfunction f))
    lua_setfield name
    lual_register l

  abbrev pub set_gc : Option String → Cmd T
  set_gc none = pure tt
  set_gc (some gc) = do lua_push (func (cfunction gc)); lua_setfield "__gc"

  unfoldable pub lua_newmeta : MetaName → List Reg → Option String → Cmd T
  unfolding lual_register
  lua_newmeta m l gc = do
    lual_newmetatable m
    lua_pushvalue 1
    lua_setfield "__index"
    lual_register l
    set_gc gc
    lua_pop 1

  -- The table of the library: the global of its name, or a new one.
  abbrev pub global_table : Value → Cmd T
  global_table (table a) = lua_push (table a)
  global_table _ = do
    lua_newtable
    λ w. lua_push (table w.globals) w
    lua_pushvalue 2
    lua_setfield "carrica"
    lua_pop 1

  abbrev pub library_table : Cmd T
  library_table = do lua_getglobal "carrica"; v ← lua_take; global_table v

  -- luaopen_carrica after vmBegin
  unfoldable pub open_library : Cmd ℕ
  unfolding lua_newmeta lual_register
  open_library = do
    lua_newmeta wrenvm_name lcvmfunc (some "lcvmGC")
    lua_newmeta stable_name lctfunc (some "lctGC")
    lua_newmeta sarray_name lcafunc (some "lcaGC")
    lua_pushlightuserdata Light.emit_ref
    lua_newtable
    lua_settable_registry
    lua_getglobal "table"
    lua_pushlightuserdata Light.sort_ref
    lua_getfield 2 "sort"
    lua_settable_registry
    lua_pop 1
    library_table
    lual_register lfunc
    pure 1

  -- The source of the module of the library is an argument; mstate keeps the one Lua.
  unfoldable pub luaopen_carrica : String → Cmd ℕ
  unfolding open_library vm_begin
  luaopen_carrica source = stored_system (vm_begin source) >> open_library

unfoldable pub lc_version : Cmd ℕ
lc_version = lua_push (str "0.1.0 Tenma") >> pure 1

-- VM_DEBUG is defined in src/vm.h.
unfoldable pub lc_has_debug : Cmd ℕ
lc_has_debug = lua_push (bool true) >> pure 1
