-- ===== src/TableClass/Entry.antt =====
-- src/cls_table.c: the iterator protocol of Table, and the class TableEntry. The registry has the
-- last key of an iteration under the foreign object of the Table, and the key and the value of an
-- entry under two fields of its foreign object, the first of which is its own address.
use carrica.Base.{ℕ, true, false, Option, none, some, if◌then◌else◌}
use carrica.Lua.Value.{Light, nil}
use carrica.Lua.Api.{
  T, top, lua_push, lua_pop, lua_pushvalue, lua_pushlightuserdata, lua_gettable,
  lua_gettable_registry, lua_settable_registry, lua_next,
}
use carrica.Wren.Value.{Wren, w_null}
use carrica.Wren.Api.{
  wren_set_slot, wren_get_slot_type, wren_get_slot_foreign, wren_set_slot_new_foreign,
  wren_set_slot_handle,
}
use carrica.World.{share_table_entry, ReRef, ok, Cmd, pure, ◌>>=◌, ◌>>◌}
use carrica.Marshal.{wren_set_slot_from_lua, lcvm_get_class_handle}
use carrica.Reference.{push_self}

abbrev pub iterate_step : ℕ → Cmd T
iterate_step n = do
  more ← lua_next 2
  if more
      then (do
        wren_set_slot 0 (Wren.bool true)
        lua_pushlightuserdata (Light.reref n)
        lua_pushvalue 3
        lua_settable_registry
        lua_pop 3)
      else (wren_set_slot 0 (Wren.bool false) >> lua_pop 2)

-- A call with null begins anew; any other goes on from the key in the registry.
unfoldable pub tvm_iterate : Cmd T
tvm_iterate = do
  n ← wren_get_slot_foreign 0
  push_self
  kind ← wren_get_slot_type 1
  elim kind [
    | w_null ↦ lua_push nil >> iterate_step n
    | _ ↦ do lua_pushlightuserdata (Light.reref n); lua_gettable_registry; iterate_step n
  ]

abbrev cached_entry_handle : Option Wren → Cmd (Option Wren)
cached_entry_handle none = lcvm_get_class_handle "carrica" "TableEntry"
cached_entry_handle (some h) = pure (some h)

abbrev store_entry_handle : Option Wren → Cmd T
store_entry_handle h w = ok tt (record w { cvm = record w.cvm { table_entry_handle = h } })

unfoldable pub set_slot_entry_class : ℕ → Cmd T
unfolding lcvm_get_class_handle
set_slot_entry_class slot = do
  h ← λ w. cached_entry_handle w.cvm.table_entry_handle w
  store_entry_handle h
  wren_set_slot_handle slot h

abbrev pub blank_entry : ReRef
blank_entry = record { kind = share_table_entry; pref = none }

unfoldable pub tvm_iterator_value : Cmd T
tvm_iterator_value = do
  n ← wren_get_slot_foreign 0
  push_self
  lua_pushlightuserdata (Light.reref n)
  lua_gettable_registry
  lua_pushvalue 1
  lua_gettable 3
  set_slot_entry_class 1
  m ← wren_set_slot_new_foreign 0 1 blank_entry
  lua_pushlightuserdata (Light.reref_pref m)
  lua_pushvalue 2
  lua_settable_registry
  lua_pop 1
  lua_pushlightuserdata (Light.reref m)
  lua_pushvalue 2
  lua_settable_registry
  lua_pop 2

unfoldable pub tevm_allocate : Cmd T
tevm_allocate = wren_set_slot_new_foreign 0 0 blank_entry >> pure tt

-- At a foreign object that Wren collects.
unfoldable pub tevm_finalize : ℕ → Cmd T
tevm_finalize n = do
  lua_pushlightuserdata (Light.reref n)
  lua_push nil
  lua_settable_registry
  lua_pushlightuserdata (Light.reref_pref n)
  lua_push nil
  lua_settable_registry

unfoldable pub tevm_key : Cmd T
tevm_key = do
  n ← wren_get_slot_foreign 0
  lua_pushlightuserdata (Light.reref n)
  lua_gettable_registry
  wren_set_slot_from_lua 0 (top 1)
  lua_pop 1

unfoldable pub tevm_value : Cmd T
tevm_value = do
  n ← wren_get_slot_foreign 0
  lua_pushlightuserdata (Light.reref_pref n)
  lua_gettable_registry
  wren_set_slot_from_lua 0 (top 1)
  lua_pop 1
