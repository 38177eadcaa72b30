-- ===== src/Lifecycle.antt =====
-- vmNew and vmRelease of src/vm.c on the world: the container, its Wren VM, its tables in the registry
-- and its methods. What they do to the table of VMs and to the modules is in Vms.
pub mod Opening
pub mod Fresh
pub mod Closing
pub mod Released
pub mod Refused
pub mod Cycle
pub mod Sources
use carrica.Base.{
  ℕ, suc, String, Bool, true, false, Option, none, some, List, [], ◌∷◌, if◌then◌else◌,
}
use carrica.Lua.Value.{Light, nil}
use carrica.Lua.Api.{T, lua_push, lua_pushlightuserdata, lua_newtable, lua_settable_registry}
use carrica.Wren.Value.{Wren}
use carrica.World.{
  World, Cvm, Share, share_array, share_table, share_lsobj, share_table_entry, ok, fault, Cmd, pure,
  ◌>>=◌, ◌>>◌,
}
use carrica.Reference.{vm_finalize}
use carrica.TableClass.Entry.{tevm_finalize}
use carrica.LuaSide.Methods.{free_found}
use carrica.Vms.{System}
use carrica.Vms

-- What wrenNewVM makes: its modules, top level variables, slots and lists.
pub record NewWren : Type 0 where
  pub slots : ℕ → Wren
  pub lists : ℕ → List Wren
  pub new_list : ℕ
  pub modules : String → Bool
  pub variables : String → String → Option Wren

abbrev pub wren_new_vm : NewWren → Cmd T
wren_new_vm n w = ok tt (record w {
  slots = n.slots;
  lists = n.lists;
  new_list = n.new_list;
  modules = n.modules;
  variables = n.variables;
  abort = none;
  cvm = record w.cvm { vm = true };
})

abbrev pub no_cvm : ℕ → Cvm
no_cvm a = record {
  address = a;
  vm = false;
  lua = false;
  name = 0;
  wren_name = none;
  array_handle = none;
  table_handle = none;
  table_entry_handle = none;
  load_module = false;
}

-- memset(cvm, 0, VM_BYTE_SIZE), methodHash included
abbrev pub blank_cvm : Cmd T
blank_cvm w = ok tt (record w { method_hash = []; cvm = no_cvm w.cvm.address })

-- The copy of the name, whose text nothing reads: its address is a key.
abbrev pub copy_name : Cmd T
copy_name w =
    ok tt (record w { cvm = record w.cvm { name = w.new_name }; new_name = suc w.new_name })

abbrev pub set_lua : Bool → Cmd T
set_lua l w = ok tt (record w { cvm = record w.cvm { lua = l } })

-- The use of a lua_State that is NULL.
abbrev pub on_lua : Bool → Cmd T → Cmd T
on_lua true run = run
on_lua false run = λ w. fault

abbrev pub stored_system : Option System → Cmd T
stored_system none w = fault
stored_system (some s) w = ok tt (record w { system = s })

abbrev pub on_system : (ℕ → System → Option System) → Cmd T
on_system f w = stored_system (f w.cvm.address w.system) w

abbrev pub new_registry_tables : Cmd T
new_registry_tables = do
  λ w. lua_pushlightuserdata (Light.cvm w.cvm.address) w
  lua_newtable
  lua_settable_registry
  λ w. lua_pushlightuserdata (Light.cvm_name w.cvm.name) w
  lua_newtable
  lua_settable_registry

-- vmNew, whose first argument, the lua_State, is NULL or not. The rest of the blank container, its
-- entry in the table of VMs and the shared modules are Vms.vm_new.
unfoldable pub vm_new : NewWren → Bool → Cmd T
unfolding Vms.vm_new
vm_new n lua = do
  blank_cvm
  copy_name
  set_lua lua
  wren_new_vm n
  on_lua lua new_registry_tables
  on_system Vms.vm_new

-- HASH_ITER: each method that is hashed is deleted and freed.
unfoldable pub free_methods : List (String × ℕ) → Cmd T
free_methods [] = pure tt
free_methods ((k, p) ∷ t) = free_found k (some p) >> free_methods t

-- The finalizer of the class of a foreign object.
abbrev pub finalize_as : Share → ℕ → Cmd T
unfolding vm_finalize tevm_finalize
finalize_as share_array n = vm_finalize n
finalize_as share_table n = vm_finalize n
finalize_as share_table_entry n = tevm_finalize n
finalize_as share_lsobj n = pure tt

abbrev pub finalize : ℕ → Cmd T
unfolding vm_finalize tevm_finalize
finalize n w = finalize_as (w.rerefs n).kind n w

-- wrenFreeVM, which finalizes the foreign objects that the VM still has
unfoldable pub wren_free_vm : List ℕ → Cmd T
unfolding vm_finalize tevm_finalize
wren_free_vm [] = pure tt
wren_free_vm (n ∷ ns) = finalize n >> wren_free_vm ns

abbrev pub remove_handlers : Cmd T
remove_handlers = do
  λ w. lua_pushlightuserdata (Light.cvm w.cvm.address) w
  lua_push nil
  lua_settable_registry

abbrev pub close_vm : List ℕ → Cmd T
unfolding Vms.vm_release free_methods wren_free_vm
close_vm heap = do
  on_system Vms.vm_release
  λ w. on_lua w.cvm.lua remove_handlers w
  λ w. free_methods w.method_hash w
  wren_free_vm heap
  blank_cvm

-- vmRelease, with the foreign objects that the Wren VM still has
unfoldable pub vm_release : List ℕ → Cmd T
unfolding Vms.vm_release free_methods wren_free_vm
vm_release heap w = if w.cvm.vm then close_vm heap w else ok tt w
