-- ===== src/Lifecycle/Sources.antt =====
-- The modules that a VM of lcNewVM in src/carrica.c loads, by vmInstallSharedSource and vmLoadModule of
-- src/vm.c.
use carrica.Base.{ℕ, ◌<◌, ◌≡◌, ◌∙◌, ap, String, false, Option, none, some, List, [], ◌∷◌}
use carrica.Callbacks.{vm_load_module}
use carrica.Callbacks.Loading.{
  vm_load_module-found, find_module-given, find_module-source, shared_source,
}
use carrica.Lifecycle.{NewWren}
use carrica.Lifecycle.Fresh.{lc_new_vm-Opens}
use carrica.Lua.Args.{from_lua}
use carrica.Lua.Runtime.{Runtime}
use carrica.Lua.Value.{Value, udata}
use carrica.LuaSide.Containers.{lc_new_vm}
use carrica.Modules.{Module, contents, find_module}
use carrica.Modules.Growth.{contents-Holds}
use carrica.Vms.{System, vm_install_shared_source}
use carrica.Vms.Shared.{IsSystem, vm_install_shared_source-Shares}
use carrica.World.{World, ok}

-- In a Lua whose globals are no table made later, and a system with well-formed tables, a source is
-- shared under a new name and then newVM called with any arguments: both return, and the new VM loads
-- under that name that source, without a look at the function that Lua may have set.
pub vm_load_module-lc_new_vm :
    ⦃R : Runtime⦄ {sh : List Module} {vs : List (Option ℕ)} (w : World) (n : NewWren)
    (args : List Value) (name source : String)
    → IsSystem sh vs w.system
    → w.globals < w.new_table
    → find_module name sh ≡ none
    → (s1 : System) × (w2 : World) × (vm_install_shared_source name source w.system ≡ some s1)
      × (from_lua (lc_new_vm n) args (record w { system = s1 }) ≡ ok (udata w.new_udata ∷ []) w2)
      × (vm_load_module name w2 ≡ ok (record { source = some source; on_complete = false }) w2)
vm_load_module-lc_new_vm {sh} w n args name source is below new =
    let (s1, shared, shares) = vm_install_shared_source-Shares is name source new in
    let (w2, runs, opens) = lc_new_vm-Opens (record w { system = s1 }) n shares.system args below in
    (
      s1,
      w2,
      shared,
      runs,
      vm_load_module-found name (shared_source name source) w2 (
          ap (λ a. find_module name (contents (w2.system.vms a).modules)) opens.address
          ∙ ap (find_module name) (contents-Holds opens.creates.modules)
          ∙ find_module-given name sh (shared_source name source) new
          ∙ find_module-source name source),
    )
