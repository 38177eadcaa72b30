-- ===== src/Modules.antt =====
-- The tables of modules of src/vm.c, which grow by doubling: carricaModTable for the shared modules
-- and for those of one VM, and vmTable, which has the same fields. A write outside the allocated
-- cells is a fault, none; memory is always there.
pub mod Growth
use text.Mathlib.Text.{◌==◌ as str_eq}
use carrica.Base.{
  ℕ, zero, suc, ◌+◌, ◌*◌, String, Bool, true, false, Option, none, some, List, [], ◌∷◌, ◌++◌,
  length, replicate, set, get_elem?, take, ltb, ◌==◌, if◌then◌else◌,
}

pub record ModDef : Type 0 where
  pub name : Option String
  pub source : Option String

-- carricaModule; the functions that bind are numbers, and none is NULL.
pub record Module : Type 0 where
  pub def : ModDef
  pub bind_foreign_method : Option ℕ
  pub bind_foreign_class : Option ℕ

-- The cells as calloc and memset leave them.
abbrev pub no_def : ModDef
no_def = record { name = none; source = none }

abbrev pub no_module : Module
no_module = record { def = no_def; bind_foreign_method = none; bind_foreign_class = none }

-- No cells stand for the NULL pointer.
pub record Growing (A : Type 0) : Type 0 where
  pub cells : List A
  pub max : ℕ
  pub count : ℕ

module _ {A B : Type 0} where
  infixl 5 ◌>>=◌
  abbrev pub ◌>>=◌ : Option A → (A → Option B) → Option B
  none >>= k = none
  some a >>= k = k a

module _ {A : Type 0} where
  abbrev pub empty : Growing A
  empty = record { cells = []; max = 0; count = 0 }

  -- vmsExpand and vmtExpand with the minimum 8, vmExpandModules with VM_MODULE_MINIMUM
  unfoldable pub expand : A → ℕ → Growing A → Growing A
  expand blank minimum t =
      if t.max == 0
      then (record { cells = replicate minimum blank; max = minimum; count = t.count })
      else if (t.count + 1) == t.max
      then (record { cells = t.cells ++ replicate t.max blank; max = t.max * 2; count = t.count })
      else t

  -- t.cells[t.count++] = v
  unfoldable pub store : A → Growing A → Option (Growing A)
  store v t =
      if ltb t.count (length t.cells)
      then some (record { cells = set t.cells t.count v; max = t.max; count = suc t.count })
      else none

abbrev pub vm_module_minimum : ℕ
vm_module_minimum = 16

-- The cell keeps what binds; only its def is written.
unfoldable pub install_def : ℕ → ModDef → Growing Module → Option (Growing Module)
unfolding expand store
install_def minimum def t = do
  m ← get_elem? (expand no_module minimum t).cells (expand no_module minimum t).count
  store (record m { def = def }) (expand no_module minimum t)

unfoldable pub install_module : ℕ → Module → Growing Module → Option (Growing Module)
unfolding expand store
install_module minimum m t = store m (expand no_module minimum t)

unfoldable pub vm_install_source_def : ModDef → Growing Module → Option (Growing Module)
unfolding install_def
vm_install_source_def = install_def vm_module_minimum

unfoldable pub vm_install_source : (name source : String) → Growing Module → Option (Growing Module)
unfolding install_def
vm_install_source name source =
    install_def vm_module_minimum (record { name = some name; source = some source })

unfoldable pub vm_install_binary_mod : Module → Growing Module → Option (Growing Module)
unfolding install_module
vm_install_binary_mod = install_module vm_module_minimum

-- The branch of vmtInstallShared and vmtNewSharedModule: a binary or a source.
unfoldable pub install_either : Module → Growing Module → Option (Growing Module)
unfolding vm_install_source_def vm_install_binary_mod
install_either m t = elim m.bind_foreign_method [
  | some _ ↦ vm_install_binary_mod m t
  | none ↦ vm_install_source_def m.def t
]

-- name != NULL && !strcmp(name, module name)
abbrev pub has_name : String → Module → Bool
has_name name m = elim m.def.name [ none ↦ false | some n ↦ str_eq name n ]

-- The first cell with the name; the loops of vmsModuleExists, vmBindForeignMethodFn,
-- vmBindForeignClassFn and vmLoadModule over the cells up to count.
unfoldable pub find_module : String → List Module → Option Module
find_module name [] = none
find_module name (m ∷ ms) = if has_name name m then some m else find_module name ms

abbrev pub contents : {A : Type 0} → Growing A → List A
contents t = take t.count t.cells

abbrev pub is_found : Option Module → Bool
is_found none = false
is_found (some _) = true

-- vmsModuleExists
unfoldable pub vms_module_exists : String → Growing Module → Bool
unfolding find_module
vms_module_exists name t = is_found (find_module name (contents t))
