-- ===== src/Tests/Lifecycles.antt =====
-- The theorems on newVM, release and renew at a Lua with two globals and one VM.
use carrica.Base.{
  ℕ, ◌+◌, ◌<◌, ◌≡◌, ◌≢◌, refl, String, true, false, some, none, List, [], ◌∷◌, arith,
}
use carrica.Lua.Value.{Value, Light, nil, str, table, udata, bool, func}
use carrica.Lua.Runtime.{returned}
use carrica.Lua.Api.{T}
use carrica.Lua.Args.{from_lua}
use carrica.Wren.Value.{Wren}
use carrica.World.{World, Cmd, ok, fault}
use carrica.Callbacks.{vm_write_fn, vm_load_module}
use carrica.Lifecycle.Sources.{vm_load_module-lc_new_vm}
use carrica.Modules.{find_module}
use carrica.Vms.{System, vm_install_shared_source}
use carrica.Lifecycle.{NewWren, no_cvm}
use carrica.Lifecycle.Fresh.{Opens, lc_new_vm-Opens}
use carrica.Lifecycle.Released.{IsReleased, lcvm_renew-IsReleased}
use carrica.Lifecycle.Cycle.{IsGone, lcvm_release-lc_new_vm}
use carrica.LuaSide.Containers.{lc_new_vm, lcvm_release, lcvm_renew, lcvm_gc}
use carrica.Lifecycle.Refused.{Refuses, lcvm_is_valid-IsReleased}
use carrica.LuaSide.Creation.{lcvm_new_array, lcvm_new_table}
use carrica.LuaSide.Handlers.{lcvm_handler}
use carrica.LuaSide.Methods.{call_method, lcvm_get_method, lcvm_free_method}
use carrica.LuaSide.Scripts.{lcvm_set_load_function, lcvm_interpret}
use carrica.LuaSide.VmMethods.{
  lcvm_is_valid, lcvm_set_wren_name, lcvm_has_variable, lcvm_has_module, lcvm_get_class,
  lcvm_free_class,
}
use carrica.LuaSide.Library.{luaopen_carrica}
use carrica.LuaSide.Library.Session.{Loads, luaopen_carrica-Loads, vm_write_fn-luaopen_carrica}
use carrica.Vms.Shared.{IsSystem}
use carrica.Vms.Creation.{Holds-empty}
use carrica.Tests.Instance.{runtime}
use carrica.Tests.Setup.{self, own_system, world, args}

abbrev new_wren : NewWren
new_wren = record {
  slots = λ i. Wren.null;
  lists = λ n. [];
  new_list = 0;
  modules = λ m. false;
  variables = λ m v. none;
}

-- Its foreign objects are arrays, and one method is hashed.
abbrev start : World
start = record (world (args Wren.null Wren.null Wren.null)) {
  globals = 2;
  tables = λ n. (str "print", func 5) ∷ (str "error", func 6) ∷ (str "table", table 1) ∷ [];
  method_hash = ("main.Main.run()", 4) ∷ [];
}

lt_seven : 0 < 7
lt_seven = omega arith

own_system-IsSystem : IsSystem (self ∷ []) (some 0 ∷ []) own_system
own_system-IsSystem = record {
  shared = record { spare = 7; cells = refl; max = refl; count = refl; room = λ lt. lt_seven };
  vmt = record { spare = 7; cells = refl; max = refl; count = refl; room = λ lt. lt_seven };
  vms = λ v. ([], Holds-empty _);
}

lc_new_vm-Opens_example :
    (w' : World) × (from_lua (lc_new_vm new_wren) (str "game" ∷ []) start ≡ ok (udata 1 ∷ []) w')
    × Opens (self ∷ []) start w'
lc_new_vm-Opens_example =
    lc_new_vm-Opens start new_wren own_system-IsSystem (str "game" ∷ []) (omega arith)

lcvm_release-lc_new_vm_example :
    (w1 w2 : World) × (from_lua (lc_new_vm new_wren) [] start ≡ ok (udata 1 ∷ []) w1)
    × (from_lua (lcvm_release []) (udata 1 ∷ []) w1 ≡ ok [] w2)
    × IsGone 1 w2
    × (w2.registry (Light.cvm 1) ≡ nil)
    × (w2.registry (Light.cvm_name w1.cvm.name) ≡ table 4)
    × ((u : ℕ) → u ≢ 1 → w2.system.vms u ≡ own_system.vms u)
    × (w2.stack ≡ str "code" ∷ [])
lcvm_release-lc_new_vm_example =
    lcvm_release-lc_new_vm start new_wren [] [] own_system-IsSystem (omega arith) tt

-- The container at the address 0 after its release.
abbrev empty_container : World
empty_container = record start { cvm = no_cvm 0 }

empty_container-IsReleased : IsReleased empty_container
empty_container-IsReleased = record { blank = refl; meta = refl }

-- What the C library and Wren do, with a VM that was released.
abbrev join : String → String → String → String
join m c signature = signature

abbrev answer : String → Cmd T
answer signature w = ok tt w

abbrev interpreted : String → String → Cmd T
interpreted module_name code w = ok tt w

lcvm_is_valid-IsReleased_example :
    (from_lua lcvm_is_valid (udata 0 ∷ str "again" ∷ []) empty_container
      ≡ ok (bool false ∷ []) empty_container)
    × Refuses (str "again" ∷ []) empty_container (lcvm_release (0 ∷ []))
    × Refuses (str "again" ∷ []) empty_container lcvm_set_wren_name
    × Refuses (str "again" ∷ []) empty_container (lcvm_set_load_function (answer "") (answer ""))
    × Refuses (str "again" ∷ []) empty_container (lcvm_handler 5)
    × Refuses (str "again" ∷ []) empty_container (lcvm_interpret interpreted)
    × Refuses (str "again" ∷ []) empty_container (lcvm_get_method join (λ p n. p + n))
    × Refuses (str "again" ∷ []) empty_container (lcvm_free_method join)
    × Refuses (str "again" ∷ []) empty_container lcvm_has_variable
    × Refuses (str "again" ∷ []) empty_container lcvm_has_module
    × Refuses (str "again" ∷ []) empty_container lcvm_get_class
    × Refuses (str "again" ∷ []) empty_container lcvm_free_class
    × (from_lua lcvm_new_array (udata 0 ∷ str "again" ∷ []) empty_container ≡ fault)
    × (from_lua lcvm_new_table (udata 0 ∷ str "again" ∷ []) empty_container ≡ fault)
    × (from_lua (call_method answer 0) (str "again" ∷ []) empty_container ≡ fault)
    × (from_lua (lcvm_gc (0 ∷ [])) (udata 0 ∷ str "again" ∷ []) empty_container
        ≡ ok [] empty_container)
lcvm_is_valid-IsReleased_example =
    lcvm_is_valid-IsReleased empty_container empty_container-IsReleased (str "again" ∷ []) (0 ∷ [])
      5 0 join (λ p n. p + n) (answer "") (answer "") interpreted answer

lcvm_renew-IsReleased_example :
    from_lua (lcvm_renew new_wren) (udata 0 ∷ str "again" ∷ []) empty_container ≡ fault
lcvm_renew-IsReleased_example =
    lcvm_renew-IsReleased empty_container empty_container-IsReleased new_wren (str "again" ∷ [])

abbrev cfunction : String → ℕ
cfunction name = 9

luaopen_carrica-Loads_example :
    (w' : World) × (from_lua (luaopen_carrica cfunction "class Host {}") (str "carrica" ∷ []) start
      ≡ ok (table 7 ∷ []) w')
    × Loads cfunction "class Host {}" 7 1 start w'
luaopen_carrica-Loads_example =
    luaopen_carrica-Loads cfunction "class Host {}" (str "carrica" ∷ []) 1 start (omega arith)
      (omega arith) refl refl

vm_write_fn-luaopen_carrica_example :
    (w1 w2 : World) × (from_lua (luaopen_carrica cfunction "class Host {}") [] start
      ≡ ok (table 7 ∷ []) w1)
    × (from_lua (lc_new_vm new_wren) [] w1 ≡ ok (udata w1.new_udata ∷ []) w2)
    × (from_lua lcvm_is_valid (udata w1.new_udata ∷ []) w2 ≡ ok (bool true ∷ []) w2)
    × ((text : String) (vs : List Value) (u : World)
        → runtime.call 5
            (str text ∷ [])
            (record w2 { stack = func 5 ∷ table w1.new_table ∷ w2.stack })
          ≡ returned vs u
        → vm_write_fn text w2 ≡ ok tt (record u { stack = w2.stack }))
vm_write_fn-luaopen_carrica_example =
    vm_write_fn-luaopen_carrica cfunction "class Host {}" [] 1 start (omega arith) (omega arith)
      refl refl new_wren [] 5 refl

vm_load_module-lc_new_vm_example :
    (s1 : System) × (w2 : World) × (vm_install_shared_source "tools" "var x = 1" own_system
      ≡ some s1)
    × (from_lua (lc_new_vm new_wren) [] (record start { system = s1 }) ≡ ok (udata 1 ∷ []) w2)
    × (vm_load_module "tools" w2
        ≡ ok (record { source = some "var x = 1"; on_complete = false }) w2)
unfolding find_module
vm_load_module-lc_new_vm_example =
    vm_load_module-lc_new_vm start new_wren [] "tools" "var x = 1" own_system-IsSystem (omega arith)
      refl
