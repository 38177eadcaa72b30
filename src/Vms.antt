-- ===== src/Vms.antt =====
-- src/vm.c: the VMs, the table of them, and the shared modules. A VM is the memory at an address, a
-- number; its Wren VM and what it has in Lua are in Lifecycle. A write outside a table is a fault,
-- none.
pub mod Capacity
pub mod Spread
pub mod Shared
pub mod Creation
pub mod Release
pub mod Installing
use carrica.Base.{
  ℕ, zero, suc, String, Bool, true, false, Option, none, some, List, [], ◌∷◌, length, set,
  get_elem?, ltb, update, if◌then◌else◌,
}
use carrica.Modules.{
  ModDef, Module, Growing, empty, no_module, contents, expand, store, install_def, install_module,
  install_either, vms_module_exists, vm_install_source_def, vm_install_binary_mod, ◌>>=◌,
}

-- carricaVM: `vm != NULL`, the id, and the table of its modules.
pub record Vm : Type 0 where
  pub valid : Bool
  pub id : ℕ
  pub modules : Growing Module

-- As memset leaves it.
abbrev pub no_vm : Vm
no_vm = record { valid = false; id = 0; modules = empty }

pub record System : Type 0 where
  pub shared : Growing Module
  pub vmt : Growing (Option ℕ)
  pub vms : ℕ → Vm

abbrev pub shared_minimum : ℕ
shared_minimum = 8

abbrev pub set_vm : ℕ → Vm → System → System
set_vm v m s = record s { vms = update s.vms v m }

-- The first cell of the table that is NULL.
abbrev pub free_cell : List (Option ℕ) → Option ℕ
free_cell [] = none
free_cell (none ∷ vs) = some 0
free_cell (some _ ∷ vs) = free_cell vs >>= λ i. some (suc i)

abbrev pub use_cell : ℕ → ℕ → System → System
use_cell v i s =
    set_vm v (record (s.vms v) { id = i })
      (record s { vmt = record s.vmt { cells = set s.vmt.cells i (some v) } })

abbrev pub vmt_expand : Growing (Option ℕ) → Growing (Option ℕ)
vmt_expand = expand none shared_minimum

abbrev pub add_cell : ℕ → System → Option System
unfolding expand store
add_cell v s = do
  vmt ← store (some v) (vmt_expand s.vmt)
  some (set_vm v (record (s.vms v) { id = s.vmt.count }) (record s { vmt = vmt }))

abbrev pub add_at : Option ℕ → ℕ → System → Option System
unfolding expand store
add_at (some i) v s = some (use_cell v i s)
add_at none v s = add_cell v s

unfoldable pub vmt_add : ℕ → System → Option System
unfolding expand store
vmt_add v s = add_at (free_cell (contents s.vmt)) v s

abbrev pub clear_cell : ℕ → System → Option System
clear_cell i s =
    if ltb i (length s.vmt.cells)
    then some (record s { vmt = record s.vmt { cells = set s.vmt.cells i none } })
    else none

-- The id is never below 0; without cells there is nothing to remove from.
unfoldable pub vmt_remove : ℕ → System → Option System
vmt_remove v s = elim s.vmt.cells [ [] ↦ some s | _ ∷ _ ↦ clear_cell (s.vms v).id s ]

-- A shared module goes to the VM if its name, the first argument, is not NULL.
abbrev pub install_named : Option String → Module → Growing Module → Option (Growing Module)
unfolding install_either
install_named none m t = some t
install_named (some _) m t = install_either m t

-- The loop of vmtInstallShared over the cells of the shared table.
unfoldable pub install_all : List Module → Growing Module → Option (Growing Module)
unfolding install_either
install_all [] t = some t
install_all (m ∷ ms) t = install_named m.def.name m t >>= install_all ms

unfoldable pub vmt_install_shared : ℕ → System → Option System
unfolding install_all
vmt_install_shared v s = do
  t ← install_all (contents s.shared) (s.vms v).modules
  some (set_vm v (record (s.vms v) { modules = t }) s)

abbrev install_in : Module → ℕ → (ℕ → Vm) → Option (ℕ → Vm)
unfolding install_either
install_in m v vms = do
  t ← install_either m (vms v).modules
  some (update vms v (record (vms v) { modules = t }))

-- The loop of vmtNewSharedModule over the cells of the table of VMs.
unfoldable pub spread : Module → List (Option ℕ) → (ℕ → Vm) → Option (ℕ → Vm)
unfolding install_either
spread m [] vms = some vms
spread m (none ∷ vs) vms = spread m vs vms
spread m (some v ∷ vs) vms = install_in m v vms >>= spread m vs

unfoldable pub vmt_new_shared_module : Module → System → Option System
unfolding spread
vmt_new_shared_module m s = do vms ← spread m (contents s.vmt) s.vms; some (record s { vms = vms })

-- The cell that an installation has written, which then goes to all VMs.
abbrev pub share : Growing Module → System → Option System
unfolding vmt_new_shared_module
share t s = do
  m ← get_elem? t.cells s.shared.count
  vmt_new_shared_module m (record s { shared = t })

abbrev pub install_shared_def : String → ModDef → System → Option System
unfolding vms_module_exists install_def vmt_new_shared_module
install_shared_def name def s =
    if vms_module_exists name s.shared
    then some s
    else do t ← install_def shared_minimum def s.shared; share t s

-- vmInstallSharedSourceDef, at a def whose name is not NULL
unfoldable pub vm_install_shared_source_def :
    (name : String) → Option String → System → Option System
unfolding vms_module_exists install_def vmt_new_shared_module
vm_install_shared_source_def name source =
    install_shared_def name (record { name = some name; source = source })

unfoldable pub vm_install_shared_source : (name source : String) → System → Option System
unfolding vms_module_exists install_def vmt_new_shared_module
vm_install_shared_source name source =
    install_shared_def name (record { name = some name; source = some source })

-- vmInstallSharedBinaryMod, at a module whose name is not NULL
unfoldable pub vm_install_shared_binary_mod : (name : String) → Module → System → Option System
unfolding vms_module_exists install_module vmt_new_shared_module
vm_install_shared_binary_mod name m s =
    if vms_module_exists name s.shared
    then some s
    else do t ← install_module shared_minimum m s.shared; share t s

-- selfMod, with the functions 0 and 1 for vmBindForeignMethodInternal and vmBindForeignClassInternal
abbrev pub self_mod : (source : String) → Module
self_mod source = record {
  def = record { name = some "carrica"; source = some source };
  bind_foreign_method = some 0;
  bind_foreign_class = some 1;
}

unfoldable pub vm_begin : (source : String) → Option System
unfolding vm_install_shared_binary_mod
vm_begin source =
    vm_install_shared_binary_mod "carrica" (self_mod source)
      (record { shared = empty; vmt = empty; vms = λ _. no_vm })

unfoldable pub vm_new : ℕ → System → Option System
unfolding vmt_add vmt_install_shared
vm_new v s = vmt_add v (set_vm v (record no_vm { valid = true }) s) >>= vmt_install_shared v

unfoldable pub vm_release : ℕ → System → Option System
unfolding vmt_remove
vm_release v s =
    if (s.vms v).valid then (do u ← vmt_remove v s; some (set_vm v no_vm u)) else some s

-- The loop of vmEnd, with the rounds left: it reads the cell when it comes to it.
unfoldable pub end_loop : (rounds i : ℕ) → System → Option System
unfolding vm_release
end_loop zero i s = some s
end_loop (suc k) i s = do
  c ← get_elem? s.vmt.cells i
  elim c [ none ↦ end_loop k (suc i) s | some v ↦ vm_release v s >>= end_loop k (suc i) ]

unfoldable pub vm_end : System → Option System
unfolding end_loop
vm_end s = end_loop s.vmt.count 0 s
