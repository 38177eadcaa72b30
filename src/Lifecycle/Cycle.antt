-- ===== src/Lifecycle/Cycle.antt =====
-- A VM from newVM to release, by lcNewVM and lcvmRelease of src/carrica.c.
use carrica.Base.{ℕ, suc, ◌<◌, ◌≡◌, ◌≢◌, ◌∙◌, sym, ap, false, Option, List, [], ◌∷◌}
use carrica.Lua.Value.{Value, Light, nil, table, udata, bool}
use carrica.Lua.Runtime.{Runtime}
use carrica.Lua.Args.{from_lua}
use carrica.World.{World, Cmd, ok, raised}
use carrica.Lifecycle.{NewWren}
use carrica.Lifecycle.Closing.{AllStand}
use carrica.Lifecycle.Fresh.{Opens, lc_new_vm-Opens}
use carrica.Lifecycle.Released.{IsOpen, IsReleased, lcvm_release-Closes, on_valid_vm-IsReleased}
use carrica.LuaSide.Containers.{lc_new_vm, lcvm_release}
use carrica.LuaSide.VmMethods.{on_valid_vm, lcvm_is_valid}
use carrica.Modules.{Module}
use carrica.Vms.Shared.{IsSystem}

pub Opens-IsOpen :
    ⦃R : Runtime⦄ {sh : List Module} {w w' : World} (o : Opens sh w w')
    → IsOpen sh o.creates.cells w'
Opens-IsOpen {w'} o = record {
  valid = o.host.valid;
  lua = o.lua;
  meta = o.meta;
  system = o.creates.system;
  listed = ap (λ a. (w'.system.vms a).valid) o.address ∙ o.creates.valid;
  own = rw o.address o.creates.own;
}

-- The VM at the address a is gone for Lua: isValid of it is false, and every method that first checks
-- the VM raises an error.
pub record IsGone (a : ℕ) (w : World) : Type 0 where
  pub invalid : from_lua lcvm_is_valid (udata a ∷ []) w ≡ ok (bool false ∷ []) w
  pub raises :
      (run : Cmd ℕ) (args : List Value)
      → from_lua (on_valid_vm run) (udata a ∷ args) w
        ≡ raised "carrica -> %s called on an invalid VM instance" w

pub IsReleased-IsGone : {a : ℕ} (w : World) → w.cvm.address ≡ a → IsReleased w → IsGone a w
IsReleased-IsGone w here released = rw (← here) (record {
  invalid = (on_valid_vm-IsReleased w released []).0;
  raises = λ run args. (on_valid_vm-IsReleased w released args).1 run;
})

-- In a Lua whose globals are no table made later, and a system with well-formed tables, newVM and then
-- release of the VM it returned both return, when the foreign objects that are finalized stand for
-- references that Lua has not collected: the VM is then gone for Lua, its handlers have left the registry and its constants are
-- still there; the other VMs and the stack are as before.
pub lcvm_release-lc_new_vm :
    ⦃R : Runtime⦄ {sh : List Module} {vs : List (Option ℕ)} (w : World) (n : NewWren)
    (args : List Value) (heap : List ℕ)
    → IsSystem sh vs w.system
    → w.globals < w.new_table
    → AllStand heap w.rerefs w.refs
    → (w1 w2 : World) × (from_lua (lc_new_vm n) args w ≡ ok (udata w.new_udata ∷ []) w1)
      × (from_lua (lcvm_release heap) (udata w.new_udata ∷ []) w1 ≡ ok [] w2)
      × IsGone w.new_udata w2
      × (w2.registry (Light.cvm w.new_udata) ≡ nil)
      × (w2.registry (Light.cvm_name w1.cvm.name) ≡ table (suc w.new_table))
      × ((u : ℕ) → u ≢ w.new_udata → w2.system.vms u ≡ w.system.vms u)
      × (w2.stack ≡ w.stack)
lcvm_release-lc_new_vm {sh} w n args heap is below stand =
    let (w1, runs, opens) = lc_new_vm-Opens w n is args below in
    let (w2, releases, closes) =
      lcvm_release-Closes heap w1 (Opens-IsOpen opens) [] (rw (opens.rerefs, opens.refs) stand) in
    (
      w1,
      w2,
      runs,
      ap (λ a. from_lua (lcvm_release heap) (udata a ∷ []) w1) (sym opens.address) ∙ releases,
      IsReleased-IsGone w2 (closes.address ∙ opens.address) closes.released,
      ap (λ a. w2.registry (Light.cvm a)) (sym opens.address) ∙ closes.handlers,
      closes.constants w1.cvm.name ∙ opens.constants,
      λ u ne. closes.others u (λ e. ne (e ∙ opens.address)) ∙ opens.creates.others u ne,
      closes.stack ∙ opens.stack,
    )
