-- ===== src/LuaSide/Containers.antt =====
-- src/carrica.c: lcNewVM, and the release, the renewal and the collection of a VM by Lua.
use carrica.Base.{
  ℕ, suc, ◌==◌, Bool, true, false, Option, none, some, ◌∷◌, update, List, String, if◌then◌else◌,
}
use carrica.Lua.Value.{Value, Light, str, table, udata, light, ref}
use carrica.Lua.Runtime.{Runtime}
use carrica.Lua.Api.{
  T, lua_push, lua_pop, lua_index, lua_take, lua_pushlightuserdata, lua_gettable_registry,
  lua_settable, lua_getglobal, raw_table,
}
use carrica.Lua.Args.{lual_checkvm, lua_arg}
use carrica.Host.{push_handlers}
use carrica.Lifecycle.{NewWren, vm_new, vm_release}
use carrica.LuaSide.VmMethods.{on_valid_vm, vm_set_wren_name}
use carrica.Marshal.{vm_is_valid}
use carrica.World.{ok, fault, Cmd, pure, lual_error, ◌>>=◌, ◌>>◌}

-- The container of a new VM on the stack; it is the VM of the world from here on.
abbrev pub new_container : Cmd T
new_container w = ok tt (record w {
  stack = udata w.new_udata ∷ w.stack;
  metatables = update w.metatables w.new_udata none;
  cvm = record w.cvm { address = w.new_udata };
  new_udata = suc w.new_udata;
})

abbrev pub set_container_meta : Value → ℕ → Cmd T
set_container_meta (udata n) a w = ok tt (record w { metatables = update w.metatables n (some a) })
set_container_meta _ a w = fault

-- luaL_getmetatable(L, LUA_NAME_WRENVM); lua_setmetatable(L, -2)
abbrev pub mark_container : Cmd T
mark_container = do
  λ w. lua_push (table w.wrenvm) w
  a ← lua_take >>= raw_table
  v ← lua_index 1
  set_container_meta v a

-- A default name that Lua has set is the name of the new VM in Wren.
abbrev pub name_container : Value → Cmd T
unfolding vm_set_wren_name
name_container (str s) = vm_set_wren_name s
name_container _ = pure tt

unfoldable pub default_wren_name : Cmd T
unfolding vm_set_wren_name
default_wren_name = do
  lua_pushlightuserdata Light.default_name
  lua_gettable_registry
  v ← lua_index 1
  name_container v
  lua_pop 1

module _ ⦃R : Runtime⦄ where
  -- handlers[name] = the global, with the handlers on top
  abbrev pub add_handler : (name global : String) → Cmd T
  add_handler name global = do lua_push (str name); lua_getglobal global; lua_settable 3

  abbrev pub default_handlers : Cmd T
  default_handlers = do
    push_handlers
    add_handler "write" "print"
    add_handler "error" "error"
    lua_pop 1

  unfoldable pub lc_new_vm : NewWren → Cmd ℕ
  unfolding vm_new default_wren_name
  lc_new_vm n = do
    new_container
    vm_new n true
    default_handlers
    mark_container
    default_wren_name
    pure 1

-- The foreign objects that the Wren VM still has are an argument.
unfoldable pub lcvm_release : List ℕ → Cmd ℕ
unfolding on_valid_vm vm_release
lcvm_release heap = on_valid_vm (do vm_release heap; pure 0)

abbrev pub renew_invalid : NewWren → Bool → Cmd ℕ
unfolding vm_new
renew_invalid n true = lual_error "carrica -> %s called on an VALID VM instance"
renew_invalid n false = do λ w. vm_new n w.cvm.lua w; pure 0

unfoldable pub lcvm_renew : NewWren → Cmd ℕ
unfolding vm_new
lcvm_renew n = do lual_checkvm; valid ← vm_is_valid; renew_invalid n valid

-- lua_touserdata is NULL for what is no user data.
abbrev pub release_value : List ℕ → Option Value → Cmd T
unfolding vm_release
release_value heap (some (udata n)) w = if n == w.cvm.address then vm_release heap w else fault
release_value heap (some (light l)) w = fault
release_value heap (some (ref r)) w = fault
release_value heap _ w = ok tt w

unfoldable pub lcvm_gc : List ℕ → Cmd ℕ
unfolding vm_release
lcvm_gc heap = do v ← lua_arg 1; release_value heap v; pure 0
