-- ===== src/LuaSide/Creation.antt =====
-- src/carrica.c: lcvmNewArray and lcvmNewTable, one text for an array and for a table.
use carrica.Base.{ℕ, Option, none, some, update, if◌then◌else◌}
use carrica.Lua.Value.{Light}
use carrica.Lua.Api.{T, lua_pushlightuserdata, lua_newtable, lua_settable_registry}
use carrica.Lua.Args.{lual_checkvm}
use carrica.Marshal.{
  MetaTable, sarray, stable, lual_getmetatable, lcvm_get_class_handle, slot_handle,
}
use carrica.Reference.{lua_newuserdata, lua_setmetatable, set_slot_array_class}
use carrica.Wren.Value.{Wren}
use carrica.Wren.Api.{wren_set_slot_handle, wren_set_slot_new_foreign}
use carrica.World.{Share, share_array, share_table, ok, fault, Cmd, pure, ◌>>=◌, ◌>>◌}

-- wrenEnsureSlots(cvm->vm, 2), which reads the VM; nothing has looked whether there is one
unfoldable pub wren_ensure_slots : Cmd T
wren_ensure_slots w = if w.cvm.vm then ok tt w else fault

abbrev cached_table_handle : Option Wren → Cmd (Option Wren)
cached_table_handle none = lcvm_get_class_handle "carrica" "Table"
cached_table_handle (some h) = pure (some h)

abbrev store_table_handle : Option Wren → Cmd T
store_table_handle h w = ok tt (record w { cvm = record w.cvm { table_handle = h } })

-- if (cvm->handle.Table == NULL) cvm->handle.Table = …; wrenSetSlotHandle(cvm->vm, slot, …)
unfoldable pub set_slot_table_class : ℕ → Cmd T
unfolding lcvm_get_class_handle
set_slot_table_class slot = do
  h ← λ w. cached_table_handle w.cvm.table_handle w
  store_table_handle h
  wren_set_slot_handle slot h

-- A new vmWrenReference on the stack, with a table in the registry.
unfoldable pub new_reference : Share → MetaTable → Cmd ℕ
new_reference k m = do
  r ← lua_newuserdata k
  lua_pushlightuserdata (Light.ref r)
  lua_newtable
  lua_settable_registry
  lual_getmetatable m
  lua_setmetatable
  pure r

-- ref->handle = wrenGetSlotHandle(cvm->vm, 0)
abbrev pub keep_handle : ℕ → Option Wren → Cmd T
keep_handle r h w = ok tt (record w { refs = update w.refs r (record (w.refs r) { handle = h }) })

-- The foreign object for the reference, of the class that is in slot 1.
abbrev pub wren_side : Share → ℕ → Cmd T
wren_side k r = do
  wren_set_slot_new_foreign 0 1 (record { kind = k; pref = some r })
  h ← slot_handle 0
  keep_handle r h

unfoldable pub lcvm_new_array : Cmd ℕ
unfolding set_slot_array_class wren_ensure_slots new_reference
lcvm_new_array = do
  lual_checkvm
  r ← new_reference share_array sarray
  wren_ensure_slots
  set_slot_array_class 1
  wren_side share_array r
  pure 1

unfoldable pub lcvm_new_table : Cmd ℕ
unfolding set_slot_table_class wren_ensure_slots new_reference
lcvm_new_table = do
  lual_checkvm
  r ← new_reference share_table stable
  wren_ensure_slots
  set_slot_table_class 1
  wren_side share_table r
  pure 1
