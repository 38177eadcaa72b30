-- ===== src/LuaSide/Objects.antt =====
-- src/carrica.c: the methods that shared arrays (lca) and shared tables (lct) have in Lua. The two
-- families are one text, with another metatable; a handle that was released is none, as every use
-- of it is a fault.
use carrica.Base.{ℕ, Bool, true, false, Option, none, some, update, if◌then◌else◌}
use carrica.Base.Int.{pos, negsuc, int_eq, ◌+ℤ◌}
use carrica.Lua.Value.{Value, Light, nil, table}
use carrica.Lua.Api.{
  T, lua_push, lua_pushlightuserdata, lua_gettable_registry, lua_settable_registry,
}
use carrica.Lua.Args.{lual_checkref, arg_is, push_arg}
use carrica.Wren.Value.{Wren}
use carrica.Wren.Api.{int_in_range}
use carrica.Marshal.{MetaTable, sarray, stable}
use carrica.Reference.{set_ref_count, hold_ref, release_ref}
use carrica.World.{World, ok, fault, Cmd, pure, lual_error, ◌>>=◌, ◌>>◌}

-- ref->refCount--, which is undefined at INT_MIN
abbrev pub count_down : ℕ → Cmd T
count_down r w = (int_in_range ((w.refs r).ref_count +ℤ negsuc 0) >>= set_ref_count r) w

abbrev pub count_is_zero : ℕ → Cmd Bool
count_is_zero r w = ok (int_eq (w.refs r).ref_count (pos 0)) w

abbrev pub forget_handle : ℕ → Option Wren → Cmd T
forget_handle r none w = fault
forget_handle r (some h) w =
    ok tt (record w { refs = update w.refs r (record (w.refs r) { handle = none }) })

-- wrenReleaseHandle(ref->cvm->vm, ref->handle), which needs a VM and a handle
abbrev pub release_handle : ℕ → Cmd T
release_handle r w = if w.cvm.vm then forget_handle r (w.refs r).handle w else fault

abbrev pub remove_table : ℕ → Cmd T
remove_table r = do lua_pushlightuserdata (Light.ref r); lua_push nil; lua_settable_registry

abbrev pub gc_counted : ℕ → Bool → Cmd T
gc_counted r true = remove_table r >> release_handle r
gc_counted r false = pure tt

abbrev pub is_table_value : Value → Bool
is_table_value (table a) = true
is_table_value _ = false

abbrev pub collect : ℕ → Cmd ℕ
collect r = do count_down r; zero ← count_is_zero r; gc_counted r zero; pure 0

-- Lua frees the user data after its __gc: no value of Lua is it any more, and in Wren a foreign object
-- that still points to it points to memory that is gone.
abbrev pub lua_free : ℕ → World → World
lua_free r w = record w {
  refs = update w.refs r (record (w.refs r) { meta = none; allocated = false });
}

abbrev pub reference_gc : MetaTable → Cmd ℕ
reference_gc m = lual_checkref m 1 >>= collect

abbrev pub reference_ref : MetaTable → Cmd ℕ
reference_ref m = do
  r ← lual_checkref m 1
  lua_pushlightuserdata (Light.ref r)
  lua_gettable_registry
  pure 1

abbrev pub write_ref : ℕ → Bool → Cmd ℕ
write_ref r true = do lua_pushlightuserdata (Light.ref r); push_arg 2; lua_settable_registry; pure 0
write_ref r false = lual_error "table.setRef() only accepts a table argument"

abbrev pub reference_set_ref : MetaTable → Cmd ℕ
reference_set_ref m = do
  r ← lual_checkref m 1
  is_table ← arg_is is_table_value 2
  write_ref r is_table

abbrev pub reference_hold : MetaTable → Cmd ℕ
reference_hold m = do r ← lual_checkref m 1; hold_ref r; pure 0

abbrev pub reference_release : MetaTable → Cmd ℕ
reference_release m = do r ← lual_checkref m 1; release_ref r; pure 0

unfoldable pub lct_gc : Cmd ℕ
lct_gc = reference_gc stable

unfoldable pub lct_ref : Cmd ℕ
lct_ref = reference_ref stable

unfoldable pub lct_set_ref : Cmd ℕ
lct_set_ref = reference_set_ref stable

unfoldable pub lct_hold : Cmd ℕ
lct_hold = reference_hold stable

unfoldable pub lct_release : Cmd ℕ
lct_release = reference_release stable

unfoldable pub lca_gc : Cmd ℕ
lca_gc = reference_gc sarray

unfoldable pub lca_ref : Cmd ℕ
lca_ref = reference_ref sarray

unfoldable pub lca_set_ref : Cmd ℕ
lca_set_ref = reference_set_ref sarray

unfoldable pub lca_hold : Cmd ℕ
lca_hold = reference_hold sarray

unfoldable pub lca_release : Cmd ℕ
lca_release = reference_release sarray
