-- ===== src/Vms/Spread.antt =====
-- A shared module that goes to every VM in the table: vmtNewSharedModule of src/vm.c.
use carrica.Base.{
  ℕ, ◌≡◌, ◌≢◌, ◌⊎◌, inl, inr, ◌∙◌, refl, Option, none, some, List, [], ◌∷◌, ◌++◌, update,
  update_self, update_ne, append_assoc, append-nil, ap, sym, arith, ◌==◌, Bool-cases, eq→≡,
}
use carrica.Modules.{
  ModDef, Growing, Module, no_module, install_either, vm_install_source_def, vm_install_binary_mod,
}
use carrica.Modules.Growth.{
  Holds, contents-Holds, source_module, install_module-Holds, install_def-Holds,
}
use carrica.Vms.{Vm, spread}

-- What a VM gets of a shared module: the whole of a binary one, the def of a source.
abbrev pub installed : Module → Module
installed m = elim m.bind_foreign_method [ some _ ↦ m | none ↦ source_module m.def ]

bound_module : ModDef → Option ℕ → Option ℕ → Module
bound_module def method class = record {
  def = def;
  bind_foreign_method = method;
  bind_foreign_class = class;
}

install_bound :
    (def : ModDef) (method class : Option ℕ) {t : Growing Module} {ms : List Module}
    → Holds no_module t ms
    → (u : Growing Module) × (install_either (bound_module def method class) t ≡ some u)
      × Holds no_module u (ms ++ installed (bound_module def method class) ∷ [])
unfolding install_either vm_install_source_def vm_install_binary_mod bound_module
install_bound def none class h = install_def-Holds 16 (omega arith) h def
install_bound def (some b) class h =
    install_module-Holds 16 (omega arith) h (bound_module def (some b) class)

pub install_either-Holds :
    {t : Growing Module} {ms : List Module} (m : Module)
    → Holds no_module t ms
    → (u : Growing Module) × (install_either m t ≡ some u)
      × Holds no_module u (ms ++ installed m ∷ [])
unfolding bound_module
install_either-Holds m h = install_bound m.def m.bind_foreign_method m.bind_foreign_class h

Holds-unique :
    {t : Growing Module} {xs ys : List Module}
    → Holds no_module t xs
    → Holds no_module t ys
    → xs ≡ ys
Holds-unique f g = sym (contents-Holds f) ∙ contents-Holds g

-- The modules of all VMs are lists in tables.
abbrev pub AllHold : (ℕ → Vm) → Type 0
AllHold vms = (v : ℕ) → (ms : List Module) × Holds no_module (vms v).modules ms

-- Every VM keeps its modules in order, with others behind them.
abbrev pub Extends : (ℕ → Vm) → (ℕ → Vm) → Type 0
Extends g f =
    (v : ℕ) (ms : List Module)
    → Holds no_module (g v).modules ms
    → (more : List Module) × Holds no_module (f v).modules (ms ++ more)

-- The VM has the module.
abbrev pub HasModule : Module → Vm → Type 0
HasModule m vm = (before behind : List Module) × Holds no_module vm.modules (before ++ m ∷ behind)

abbrev pub Listed : ℕ → List (Option ℕ) → Type 0
Listed v [] = ⊥
Listed v (none ∷ vs) = Listed v vs
Listed v (some u ∷ vs) = (v ≡ u) ⊎ Listed v vs

Extends-refl : (f : ℕ → Vm) → Extends f f
Extends-refl f v ms h = ([], rw append-nil h)

Extends-trans : (f g h : ℕ → Vm) → Extends f g → Extends g h → Extends f h
Extends-trans f g h one two v ms at =
    let (xs, held) = one v ms at in
    let (ys, held') = two v (ms ++ xs) held in (xs ++ ys, rw (append_assoc ms xs ys) at held')

HasModule-Extends :
    (f g : ℕ → Vm) (m : Module) (v : ℕ) → Extends f g → HasModule m (f v) → HasModule m (g v)
HasModule-Extends f g m v more (before, behind, h) =
    let (xs, held) = more v (before ++ m ∷ behind) h in
    (before, behind ++ xs, rw (append_assoc before (m ∷ behind) xs) at held)

-- One VM with one module more.
with_modules : (ℕ → Vm) → ℕ → Growing Module → ℕ → Vm
with_modules vms u t = update vms u (record (vms u) { modules = t })

module _ (vms : ℕ → Vm) (u : ℕ) {t : Growing Module} {ms : List Module} (m : Module)
    (old : Holds no_module (vms u).modules ms) (new : Holds no_module t (ms ++ m ∷ [])) where
  modules_self : (with_modules vms u t u).modules ≡ t
  unfolding with_modules
  modules_self = rw (update_self vms u)

  modules_other : (v : ℕ) → v ≢ u → (with_modules vms u t v).modules ≡ (vms v).modules
  unfolding with_modules
  modules_other v ne = ap (λ vm. vm.modules) (update_ne vms u v (record (vms u) { modules = t }) ne)

  with_modules-AllHold : AllHold vms → AllHold (with_modules vms u t)
  with_modules-AllHold all v = elim (Bool-cases (v == u)) [
    | inl e ↦ (ms ++ m ∷ [], rw (eq→≡ v u e, modules_self) new)
    | inr ne ↦ ((all v).0, rw (modules_other v (λ e. ground arith)) (all v).1)
  ]

  with_modules-Extends : Extends vms (with_modules vms u t)
  with_modules-Extends v ns h = elim (Bool-cases (v == u)) [
    | inl e ↦ (m ∷ [], rw (eq→≡ v u e, modules_self, Holds-unique (rw (eq→≡ v u e) at h) old) new)
    | inr ne ↦ ([], rw (append-nil, modules_other v (λ e. ground arith)) h)
  ]

-- The loop never writes outside a table. Every VM keeps its modules in order, and each VM in the
-- table has the new module.
pub spread-HasModule :
    (m : Module) (vs : List (Option ℕ)) (vms : ℕ → Vm)
    → AllHold vms
    → (f : ℕ → Vm) × (spread m vs vms ≡ some f)
      × AllHold f
      × Extends vms f
      × ((v : ℕ) → Listed v vs → HasModule (installed m) (f v))
unfolding spread with_modules
spread-HasModule m [] vms all = (vms, refl, all, Extends-refl vms, λ v l. absurd l)
spread-HasModule m (none ∷ vs) vms all = spread-HasModule m vs vms all
spread-HasModule m (some u ∷ vs) vms all =
    let (ms, old) = all u in
    let (t, runs, new) = install_either-Holds m old in
    let (f, loops, held, more, have) =
      spread-HasModule m vs (with_modules vms u t)
        (with_modules-AllHold vms u (installed m) old new all) in
    let self = modules_self vms u (installed m) old new in
    let here : HasModule (installed m) (f u) =
      HasModule-Extends (with_modules vms u t) f (installed m) u more (ms, [], rw self new) in
    (
      f,
      rw runs loops,
      held,
      Extends-trans vms (with_modules vms u t) f (with_modules-Extends vms u (installed m) old new)
          more,
      λ v l. elim l [ inl e ↦ rw e here | inr l' ↦ have v l' ],
    )
