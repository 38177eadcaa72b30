-- ===== src/Vms/Release.antt =====
-- vmBegin and vmRelease of src/vm.c.
use carrica.Base.{
  ℕ, ◌<◌, ◌≡◌, ◌≢◌, refl, String, true, Option, none, some, List, [], ◌∷◌, length, set, update,
  update_self, update_ne, ltb_of_lt, replicate, length-append, arith,
}
use carrica.Modules.{Module, no_module}
use carrica.Vms.{System, no_vm, self_mod, vm_begin, vm_release, vmt_remove, clear_cell, set_vm}
use carrica.Vms.Shared.{IsSystem, vm_install_shared_binary_mod-Shares}
use carrica.Vms.Creation.{Holds-empty, Holds-set, AllHold-others}

-- vmBegin leaves one shared module, carrica's own, and no VM.
pub vm_begin-IsSystem :
    (source : String)
    → (s : System) × (vm_begin source ≡ some s) × IsSystem (self_mod source ∷ []) [] s
unfolding vm_begin
vm_begin-IsSystem source =
    let (s, runs, shares) =
      vm_install_shared_binary_mod-Shares
        (record {
          shared = Holds-empty no_module;
          vmt = Holds-empty none;
          vms = λ v. ([], Holds-empty no_module);
        })
        "carrica" (self_mod source) refl in
    (s, runs, shares.system)

remove-clear :
    (v : ℕ) (s : System) (cells : List (Option ℕ))
    → s.vmt.cells ≡ cells
    → 0 < length cells
    → vmt_remove v s ≡ clear_cell (s.vms v).id s
unfolding vmt_remove
remove-clear v s [] e lt = absurd (omega arith)
remove-clear v s (c ∷ cs) e lt = rw e

clear-ok :
    (i : ℕ) (s : System)
    → i < length s.vmt.cells
    → clear_cell i s ≡ some (record s { vmt = record s.vmt { cells = set s.vmt.cells i none } })
clear-ok i s lt = rw (ltb_of_lt i (length s.vmt.cells) lt)

module _ {sh : List Module} {vs : List (Option ℕ)} {s : System} (v : ℕ) (is : IsSystem sh vs s)
    (valid : (s.vms v).valid ≡ true) (own : (s.vms v).id < length vs) where
  own_cell : (s.vms v).id < length s.vmt.cells
  own_cell = rw (is.vmt.cells, length-append vs (replicate is.vmt.spare none)) (omega (arith, own))

  -- In a system whose tables are well formed, vmRelease of a valid VM, whose id is below the number of
  -- cells in use, never writes outside the table and leaves the tables well formed: the cell at its
  -- id is NULL, the VM is blank and so no longer valid, and the shared modules and the other VMs are
  -- as before.
  pub vm_release-IsSystem :
      (s' : System) × (vm_release v s ≡ some s')
      × IsSystem sh (set vs (s.vms v).id none) s'
      × (s'.vms v ≡ no_vm)
      × ((u : ℕ) → u ≢ v → s'.vms u ≡ s.vms u)
  unfolding vm_release
  vm_release-IsSystem =
      let others : (u : ℕ) → u ≢ v → update s.vms v no_vm u ≡ s.vms u =
        λ u ne. update_ne s.vms v u no_vm ne in
      let blank : update s.vms v no_vm v ≡ no_vm = update_self s.vms v no_vm in
      (
        set_vm v no_vm
            (record s { vmt = record s.vmt { cells = set s.vmt.cells (s.vms v).id none } }),
        rw (
          valid,
          remove-clear v s s.vmt.cells refl (omega (arith, own_cell)),
          clear-ok (s.vms v).id s own_cell,
        ),
        record {
          shared = is.shared;
          vmt = Holds-set (s.vms v).id none own is.vmt;
          vms = AllHold-others {ms = []} v is.vms (rw blank (Holds-empty no_module)) others;
        },
        blank,
        others,
      )
