-- ===== src/Reference.antt =====
-- The shared objects: avmLuaNewArray of src/cls_array.c and tvmLuaNewTable of src/cls_table.c, which
-- are one text, the reference counts, and the table behind a foreign object.
pub mod Object
use carrica.Base.{ℕ, suc, true, false, Option, none, some, ◌∷◌, update, if◌then◌else◌}
use carrica.Base.Int.{ℤ, pos, negsuc, ◌+ℤ◌}
use carrica.Lua.Value.{Value, Light, nil, table, ref}
use carrica.Lua.Api.{
  T, lua_index, lua_take, lua_push, lua_pushvalue, lua_pop, lua_pushlightuserdata, lua_newtable,
  lua_settable_registry, raw_table, int_value, or_fault,
}
use carrica.Wren.Value.{Wren}
use carrica.Wren.Api.{int_in_range, wren_get_slot_foreign, wren_set_slot_handle}
use carrica.World.{Share, share_array, share_table, Ref, World, ok, fault, Cmd, pure, ◌>>=◌, ◌>>◌}
use carrica.Marshal.{MetaTable, sarray, stable, lual_getmetatable, push_pref, lcvm_get_class_handle}

-- A new vmWrenReference on the stack; nothing sets its handle.
abbrev pub lua_newuserdata : Share → Cmd ℕ
lua_newuserdata k w = ok w.new_ref (record w {
  stack = ref w.new_ref ∷ w.stack;
  refs =
      update w.refs w.new_ref
        (record { kind = k; ref_count = pos 1; handle = none; meta = none; allocated = true });
  new_ref = suc w.new_ref;
})

abbrev pub set_meta : Value → ℕ → Cmd T
set_meta (ref r) a w =
    ok tt (record w { refs = update w.refs r (record (w.refs r) { meta = some a }) })
set_meta _ a w = fault

-- lua_setmetatable(L, -2)
abbrev pub lua_setmetatable : Cmd T
lua_setmetatable = do a ← lua_take >>= raw_table; v ← lua_index 1; set_meta v a

abbrev pub lua_new_reference : Share → MetaTable → Cmd ℕ
lua_new_reference k m = do
  ret ← lua_newuserdata k
  lua_pushlightuserdata (Light.ref ret)
  lua_newtable
  lua_settable_registry
  lual_getmetatable m
  lua_setmetatable
  lua_pushlightuserdata (Light.ref_count ret)
  lua_pushvalue 2
  lua_settable_registry
  lua_pop 1
  pure ret

unfoldable pub avm_lua_new_array : Cmd ℕ
avm_lua_new_array = lua_new_reference share_array sarray

unfoldable pub tvm_lua_new_table : Cmd ℕ
tvm_lua_new_table = lua_new_reference share_table stable

-- The table of the foreign object in a slot, or what the registry has in its place, on the stack.
abbrev pub push_object : ℕ → Cmd T
push_object n w = push_pref (w.rerefs n).pref w

unfoldable pub push_self : Cmd T
push_self = wren_get_slot_foreign 0 >>= push_object

abbrev pub pref_of : ℕ → Cmd ℕ
pref_of n w = or_fault (w.rerefs n).pref w

abbrev pub set_ref_count : ℕ → ℤ → Cmd T
set_ref_count r z w =
    ok tt (record w { refs = update w.refs r (record (w.refs r) { ref_count = z }) })

-- A reference that Lua has collected is memory that is no longer there.
abbrev pub in_memory : ℕ → Cmd T
in_memory r w = if (w.refs r).allocated then ok tt w else fault

abbrev pub count_up : ℕ → Cmd T
count_up r w = (int_in_range ((w.refs r).ref_count +ℤ pos 1) >>= set_ref_count r) w

abbrev pub hold_ref : ℕ → Cmd T
hold_ref r = in_memory r >> count_up r

-- if (refCount > 0) refCount--;
abbrev pub drop_count : ℤ → ℤ
drop_count (pos (suc n)) = pos n
drop_count z = z

abbrev pub count_drop : ℕ → Cmd T
count_drop r w = set_ref_count r (drop_count (w.refs r).ref_count) w

abbrev pub release_ref : ℕ → Cmd T
release_ref r = in_memory r >> count_drop r

-- avmHold and tvmHold
unfoldable pub vm_hold : Cmd T
vm_hold = wren_get_slot_foreign 0 >>= pref_of >>= hold_ref

-- avmRelease and tvmRelease
unfoldable pub vm_release : Cmd T
vm_release = wren_get_slot_foreign 0 >>= pref_of >>= release_ref

-- avmFinalize and tvmFinalize, at a foreign object that Wren collects
unfoldable pub vm_finalize : ℕ → Cmd T
vm_finalize n = pref_of n >>= release_ref

abbrev cached_handle : Option Wren → Cmd (Option Wren)
cached_handle none = lcvm_get_class_handle "carrica" "Array"
cached_handle (some h) = pure (some h)

abbrev store_array_handle : Option Wren → Cmd T
store_array_handle h w = ok tt (record w { cvm = record w.cvm { array_handle = h } })

-- if (cvm->handle.Array == NULL) cvm->handle.Array = …; wrenSetSlotHandle(vm, slot, …)
unfoldable pub set_slot_array_class : ℕ → Cmd T
unfolding lcvm_get_class_handle
set_slot_array_class slot = do
  h ← λ w. cached_handle w.cvm.array_handle w
  store_array_handle h
  wren_set_slot_handle slot h
