-- ===== src/Vms/Shared.antt =====
-- vmInstallSharedSource and vmInstallSharedBinaryMod of src/vm.c, on the shared modules and on every
-- VM in the table.
use carrica.Base.{
  ℕ, ◌≡◌, ◌∙◌, String, true, false, Option, none, some, List, [], ◌∷◌, ◌++◌, length, get_elem?,
  get_elem?-middle, replicate, append_assoc, ap, arith,
}
use carrica.Modules.{ModDef, Growing, Module, no_module, is_found, find_module, vms_module_exists}
use carrica.Modules.Growth.{
  Holds, contents-Holds, source_module, install_module-Holds, install_def-Holds,
}
use carrica.Vms.{
  System, share, vmt_new_shared_module, vm_install_shared_source, vm_install_shared_binary_mod,
}
use carrica.Vms.Spread.{installed, AllHold, Extends, HasModule, Listed, spread-HasModule}

-- The shared table holds the modules sh, the table of VMs the cells vs, and every VM's table a list.
pub record IsSystem (sh : List Module) (vs : List (Option ℕ)) (s : System) : Type 0 where
  pub shared : Holds no_module s.shared sh
  pub vmt : Holds none s.vmt vs
  pub vms : AllHold s.vms

-- The module m has been shared: it is the last shared module, the table of VMs is as before, every
-- VM keeps its modules in order, and each VM in the table has the module.
pub record Shares (sh : List Module) (vs : List (Option ℕ)) (m : Module) (s s' : System)
    : Type 0 where
  pub system : IsSystem (sh ++ m ∷ []) vs s'
  pub keeps : Extends s.vms s'.vms
  pub reaches : (v : ℕ) → Listed v vs → HasModule (installed m) (s'.vms v)

shared_cell :
    (t : Growing Module) (sh : List Module) (m : Module) (n : ℕ)
    → Holds no_module t (sh ++ m ∷ [])
    → n ≡ length sh
    → get_elem? t.cells n ≡ some m
shared_cell t sh m n h e =
    rw (h.cells, e, append_assoc sh (m ∷ []) (replicate h.spare no_module))
      (get_elem?-middle sh m (replicate h.spare no_module))

not_exists :
    {t : Growing Module} {sh : List Module} (name : String)
    → Holds no_module t sh
    → find_module name sh ≡ none
    → vms_module_exists name t ≡ false
unfolding vms_module_exists
not_exists name h new =
    ap (λ ms. is_found (find_module name ms)) (contents-Holds h) ∙ ap is_found new

exists :
    {t : Growing Module} {sh : List Module} (name : String) (m : Module)
    → Holds no_module t sh
    → find_module name sh ≡ some m
    → vms_module_exists name t ≡ true
unfolding vms_module_exists
exists name m h old = ap (λ ms. is_found (find_module name ms)) (contents-Holds h) ∙ ap is_found old

module _ {sh : List Module} {vs : List (Option ℕ)} {s : System} (is : IsSystem sh vs s) where
  share-Shares :
      (m : Module) (t : Growing Module)
      → Holds no_module t (sh ++ m ∷ [])
      → (s' : System) × (share t s ≡ some s') × Shares sh vs m s s'
  unfolding vmt_new_shared_module
  share-Shares m t h =
      let (f, runs, all, keeps, reaches) = spread-HasModule m vs s.vms is.vms in
      (
        record { shared = t; vmt = s.vmt; vms = f },
        rw (shared_cell t sh m s.shared.count h is.shared.count, contents-Holds is.vmt, runs),
        record {
          system = record { shared = h; vmt = is.vmt; vms = all };
          keeps = keeps;
          reaches = reaches;
        },
      )

  -- In a system whose tables are well formed, sharing a source under a name that no shared module has
  -- never writes outside a table and leaves the tables well formed: the source is behind the shared
  -- modules, every VM keeps its modules in order, and each VM in the table of VMs has the source.
  pub vm_install_shared_source-Shares :
      (name source : String)
      → find_module name sh ≡ none
      → (s' : System) × (vm_install_shared_source name source s ≡ some s')
        × Shares sh vs (source_module (record { name = some name; source = some source })) s s'
  unfolding vm_install_shared_source
  vm_install_shared_source-Shares name source new =
      let def : ModDef = record { name = some name; source = some source } in
      let (t, runs, held) = install_def-Holds 8 (omega arith) is.shared def in
      let (s', shares, result) = share-Shares (source_module def) t held in
      (s', rw (not_exists name is.shared new, runs) shares, result)

  -- Sharing a binary module under a name that no shared module has does the same.
  pub vm_install_shared_binary_mod-Shares :
      (name : String) (m : Module)
      → find_module name sh ≡ none
      → (s' : System) × (vm_install_shared_binary_mod name m s ≡ some s') × Shares sh vs m s s'
  unfolding vm_install_shared_binary_mod
  vm_install_shared_binary_mod-Shares name m new =
      let (t, runs, held) = install_module-Holds 8 (omega arith) is.shared m in
      let (s', shares, result) = share-Shares m t held in
      (s', rw (not_exists name is.shared new, runs) shares, result)

  -- In a system whose tables are well formed, sharing a source under a name that a shared module has
  -- already changes nothing.
  pub vm_install_shared_source-twice :
      (name source : String) (m : Module)
      → find_module name sh ≡ some m
      → vm_install_shared_source name source s ≡ some s
  unfolding vm_install_shared_source
  vm_install_shared_source-twice name source m old = rw (exists name m is.shared old)
