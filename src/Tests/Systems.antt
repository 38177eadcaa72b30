-- ===== src/Tests/Systems.antt =====
-- The theorems on modules and VMs at a system with one shared module and one VM.
use carrica.Base.{
  String, false, ◌*◌, ◌≤◌, ◌⊎◌, inl, inr, ◌<◌, ◌≡◌, refl, true, some, none, [], ◌∷◌, replicate,
  arith,
}
use carrica.Modules.{Module, Growing, no_module, empty, find_module}
use carrica.Modules.Growth.{source_module}
use carrica.Binding.{MethodDef, internal_modules, vm_bind_foreign_method_internal}
use carrica.Binding.Search.{InModules, Bound}
use carrica.World.{World, ok}
use carrica.Tests.Instance.{runtime}
use carrica.Tests.Setup.{self}
use carrica.Callbacks.{Bind, vm_bind_foreign_method_fn}
use carrica.Callbacks.Loading.{vm_bind_foreign_method_fn-InModules}
use carrica.Vms.Capacity.{install_all-bounded}
use carrica.Vms.{install_all, System, vm_new, vm_install_shared_source}
use carrica.Vms.Shared.{IsSystem, Shares, vm_install_shared_source-Shares}
use carrica.Vms.Creation.{Holds-empty}

abbrev one_vm : System
one_vm = record {
  shared = record { cells = self ∷ replicate 7 no_module; max = 8; count = 1 };
  vmt = record { cells = some 5 ∷ replicate 7 none; max = 8; count = 1 };
  vms = λ v. record { valid = true; id = 0; modules = empty };
}

lt_seven : 0 < 7
lt_seven = omega arith

one_vm-IsSystem : IsSystem (self ∷ []) (some 5 ∷ []) one_vm
one_vm-IsSystem = record {
  shared = record { spare = 7; cells = refl; max = refl; count = refl; room = λ lt. lt_seven };
  vmt = record { spare = 7; cells = refl; max = refl; count = refl; room = λ lt. lt_seven };
  vms = λ v. ([], Holds-empty no_module);
}

vm_install_shared_source-Shares_example :
    (s' : System) × (vm_install_shared_source "tools" "var x = 1" one_vm ≡ some s')
    × Shares
        (self ∷ [])
        (some 5 ∷ [])
        (source_module (record { name = some "tools"; source = some "var x = 1" }))
        one_vm
        s'
unfolding find_module
vm_install_shared_source-Shares_example =
    vm_install_shared_source-Shares one_vm-IsSystem "tools" "var x = 1" refl

install_all-bounded_example :
    (t : Growing Module) × (install_all (self ∷ []) empty ≡ some t)
    × (t.count ≡ 1)
    × ((t.max ≤ 16) ⊎ (t.max ≤ 2 * t.count))
install_all-bounded_example = install_all-bounded (self ∷ [])

-- The functions that bind, of which the first is the search of the library.
abbrev internal_bind : Bind
internal_bind f m c is_static signature = vm_bind_foreign_method_internal m c is_static signature

abbrev count : MethodDef
count = record { is_static = false; signature = "count"; method = "avmCount" }

vm_bind_foreign_method_fn-InModules_example :
    (s' : System) × (vm_new 6 one_vm ≡ some s')
    × (f : String) × (d' : MethodDef) × ((w : World)
        → w.system ≡ s'
        → w.cvm.address ≡ 6
        → w.cvm.vm ≡ true
        → vm_bind_foreign_method_fn internal_bind "carrica" "Array" false "count" w ≡ ok (some f) w)
    × InModules "Array" d' internal_modules
    × Bound false "count" f d'
vm_bind_foreign_method_fn-InModules_example =
    vm_bind_foreign_method_fn-InModules "class Host {}" 6 internal_bind one_vm-IsSystem
      (λ m c b g. refl)
      (inr (inr (inl (inl (refl, inr (inr (inr (inr (inr (inr (inr (inl refl))))))))))))
