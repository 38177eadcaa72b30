-- ===== src/Callbacks/Loading.antt =====
-- vmLoadModule and vmBindForeignMethodFn of src/vm.c, in a VM that vmNew has made.
use mathlib.Core.Option.{none-ne-some}
use carrica.Base.{
  ℕ, ◌≡◌, ◌∙◌, refl, sym, ap, if_true, if_false, Bool-cases, inl, inr, String, Bool, true, false,
  Option, none, some, List, [], ◌∷◌, ◌++◌,
}
use carrica.Modules.{Module, contents, find_module, has_name, no_module}
use carrica.Vms.Spread.{installed}
use carrica.Lua.Value.{Value, Light, func, str}
use carrica.Lua.Runtime.{Runtime, returned}
use carrica.Lua.Equality.{eq_self_key}
use carrica.Binding.{MethodDef, internal_modules, vm_bind_foreign_method_internal}
use carrica.Binding.Search.{InModules, Bound, vm_bind_foreign_method_internal-InModules}
use carrica.Modules.Growth.{contents-Holds, source_module}
use carrica.Vms.{System, self_mod, vm_new, vm_install_shared_source}
use carrica.Vms.Shared.{IsSystem, vm_install_shared_source-Shares}
use carrica.Vms.Creation.{named, given, vm_new-Creates}
use carrica.World.{World, ok, fault}
use carrica.Callbacks.{
  vm_load_module, load_found, load_by_function, loaded_value, bind_in, call_bind, bound, Bind,
  vm_bind_foreign_method_fn, own_modules,
}

abbrev pub shared_source : (name source : String) → Module
shared_source name source = source_module (record { name = some name; source = some source })

installed-def :
    (o : Option ℕ) (m : Module)
    → (elim o as (λ _. Module) [ some _ ↦ m | none ↦ source_module m.def ]).def ≡ m.def
installed-def none m = refl
installed-def (some f) m = refl

has_name-installed : (name : String) (m : Module) → has_name name (installed m) ≡ has_name name m
has_name-installed name m =
    ap (λ d. has_name name (record no_module { def = d })) (installed-def m.bind_foreign_method m)

find_module-named :
    (name : String) (o : Option String) (m : Module) (rest : List Module)
    → has_name name (installed m) ≡ false
    → find_module name (named o m ++ rest) ≡ find_module name rest
unfolding find_module
find_module-named name none m rest other = refl
find_module-named name (some n) m rest other = if_false _ _ _ other

pub find_module-given :
    (name : String) (ms : List Module) (m : Module)
    → find_module name ms ≡ none
    → find_module name (given (ms ++ m ∷ [])) ≡ find_module name (given (m ∷ []))
unfolding find_module
find_module-given name [] m new = refl
find_module-given name (x ∷ ms) m new = elim (Bool-cases (has_name name x)) [
  | inl e ↦ absurd (none-ne-some x (sym new ∙ if_true _ _ _ e))
  | inr e ↦
      find_module-named name x.def.name x (given (ms ++ m ∷ [])) (has_name-installed name x ∙ e)
      ∙ find_module-given name ms m (sym (if_false _ _ _ e) ∙ new)
]

pub find_module-source :
    (name source : String)
    → find_module name (given (shared_source name source ∷ [])) ≡ some (shared_source name source)
unfolding find_module
find_module-source name source = if_true _ _ _ (eq_self_key (str name) refl)

pub vm_load_module-found :
    ⦃R : Runtime⦄ (name : String) (m : Module) (w : World)
    → find_module name (contents (own_modules w)) ≡ some m
    → vm_load_module name w ≡ ok (record { source = m.def.source; on_complete = false }) w
unfolding vm_load_module load_found
vm_load_module-found name m w found = ap (λ o. load_found name o w) found

own_vm :
    (w : World) (s : System) (v : ℕ)
    → w.system ≡ s
    → w.cvm.address ≡ v
    → own_modules w ≡ (s.vms v).modules
own_vm w s v here at = ap (λ t. (t.vms w.cvm.address).modules) here ∙ ap (λ a. (s.vms a).modules) at

module _ {sh : List Module} {vs : List (Option ℕ)} {s : System} (name source : String) (v : ℕ)
    (is : IsSystem sh vs s) (new : find_module name sh ≡ none) where
  own_source :
      (w : World) (s2 : System) (u : ℕ)
      → w.system ≡ s2
      → w.cvm.address ≡ u
      → find_module name (contents (own_modules w)) ≡ find_module name (contents (s2.vms u).modules)
  own_source w s2 u here at = ap (λ t. find_module name (contents t)) (own_vm w s2 u here at)

  found-source :
      (s1 : System) × (s2 : System) × (vm_install_shared_source name source s ≡ some s1)
      × (vm_new v s1 ≡ some s2)
      × (find_module name (contents (s2.vms v).modules) ≡ some (shared_source name source))
  found-source =
      let (s1, shared, shares) = vm_install_shared_source-Shares is name source new in
      let (s2, created, creates) = vm_new-Creates v shares.system in
      (
        s1,
        s2,
        shared,
        created,
        ap (find_module name) (contents-Holds creates.modules)
            ∙ find_module-given name sh (shared_source name source) new
            ∙ find_module-source name source,
      )

  -- In a system with well-formed tables, a source that is shared under a new name is what a VM made
  -- after it loads under that name, without a look at the function that Lua may have set.
  pub vm_load_module-vm_install_shared_source :
      ⦃R : Runtime⦄
      → (s1 : System) × (s2 : System) × (vm_install_shared_source name source s ≡ some s1)
        × (vm_new v s1 ≡ some s2)
        × ((w : World)
            → w.system ≡ s2
            → w.cvm.address ≡ v
            → vm_load_module name w ≡ ok (record { source = some source; on_complete = false }) w)
  unfolding vm_load_module
  vm_load_module-vm_install_shared_source =
      let (s1, s2, shared, created, found) = found-source in
      (
        s1,
        s2,
        shared,
        created,
        λ w here at. vm_load_module-found name _ w (own_source w s2 v here at ∙ found),
      )

  -- In a system with well-formed tables, a foreign method of a source that is shared under a new name
  -- makes a valid VM made after it call NULL.
  pub vm_bind_foreign_method_fn-source :
      (s1 : System) × (s2 : System) × (vm_install_shared_source name source s ≡ some s1)
      × (vm_new v s1 ≡ some s2)
      × ((call : Bind) (class_name : String) (is_static : Bool) (signature : String) (w : World)
          → w.system ≡ s2
          → w.cvm.address ≡ v
          → w.cvm.vm ≡ true
          → vm_bind_foreign_method_fn call name class_name is_static signature w ≡ fault)
  unfolding vm_bind_foreign_method_fn
  vm_bind_foreign_method_fn-source =
      let (s1, s2, shared, created, found) = found-source in
      (
        s1,
        s2,
        shared,
        created,
        λ call c is_static signature w here at valid.
            if_true w.cvm.vm _ _ valid
            ∙ ap (λ o. bind_in (call_bind call name c is_static signature) is_static o w)
                (own_source w s2 v here at ∙ found),
      )

-- In a VM that vmNew makes in a system with well-formed tables when the module of the library is the
-- first shared one, every foreign method that the internal lists have is bound, to one listed for the
-- same class and signature, and static like it or not; for a binding function of that module that is
-- the internal search.
pub vm_bind_foreign_method_fn-InModules :
    {sh : List Module} {vs : List (Option ℕ)} {s : System} {class_name : String} {d : MethodDef}
    (source : String) (v : ℕ) (call : Bind)
    → IsSystem (self_mod source ∷ sh) vs s
    → ((m c : String) (b : Bool) (g : String)
        → call 0 m c b g ≡ vm_bind_foreign_method_internal m c b g)
    → InModules class_name d internal_modules
    → (s' : System) × (vm_new v s ≡ some s')
      × (f : String) × (d' : MethodDef) × ((w : World)
          → w.system ≡ s'
          → w.cvm.address ≡ v
          → w.cvm.vm ≡ true
          → vm_bind_foreign_method_fn call "carrica" class_name d.is_static d.signature w
            ≡ ok (some f) w)
      × InModules class_name d' internal_modules
      × Bound d.is_static d.signature f d'
unfolding vm_bind_foreign_method_fn find_module
vm_bind_foreign_method_fn-InModules {sh} {class_name} {d} source v call is zero_is listed =
    let (s', created, creates) = vm_new-Creates v is in
    let (f, d', found, there, same) =
      vm_bind_foreign_method_internal-InModules class_name d "carrica" listed in
    (
      s',
      created,
      f,
      d',
      λ w here at valid.
          if_true w.cvm.vm _ _ valid
          ∙ ap
              (λ ms.
                bind_in (call_bind call "carrica" class_name d.is_static d.signature) d.is_static
                  (find_module "carrica" ms) w)
              (ap contents (own_vm w s' v here at) ∙ contents-Holds creates.modules)
          ∙ ap (λ o. bound d.is_static o w)
              (zero_is "carrica" class_name d.is_static d.signature ∙ found),
      there,
      same,
    )

-- A module that the VM does not have is loaded by a call of the function that Lua has set.
pub vm_load_module-func :
    ⦃R : Runtime⦄ {w u : World} {vs : List Value} (name source : String) (f : ℕ)
    → find_module name (contents (own_modules w)) ≡ none
    → w.cvm.load_module ≡ true
    → w.registry (Light.load_module w.cvm.address) ≡ func f
    → R.call f (str name ∷ []) w ≡ returned (str source ∷ vs) u
    → vm_load_module name w
      ≡ ok (record { source = some source; on_complete = true }) (record u { stack = w.stack })
unfolding vm_load_module load_found load_by_function loaded_value
vm_load_module-func {w} name source f missing set registered ran =
    ap (λ o. load_found name o w) missing
    ∙ if_true w.cvm.load_module _ _ set
    ∙ rw (registered, ran) refl
