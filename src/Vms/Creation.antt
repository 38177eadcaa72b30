-- ===== src/Vms/Creation.antt =====
-- vmNew of src/vm.c: the new VM in the table of VMs, with every shared module.
use carrica.Base.{
  ℕ, zero, suc, ◌<◌, ◌≡◌, ◌≢◌, inl, inr, ◌∙◌, refl, String, true, Option, none, some, List, [], ◌∷◌,
  ◌++◌, length, length-append, set, update, update_self, update_ne, replicate, append_assoc,
  append-nil, ap, arith, ◌==◌, Bool-cases, eq→≡, Option-cases,
}
use carrica.Modules.{Growing, Module, no_module, empty, expand, store, install_either}
use carrica.Modules.Growth.{Holds, contents-Holds, expand-Roomy, store-Roomy}
use carrica.Vms.{
  Vm, System, no_vm, set_vm, free_cell, vmt_add, use_cell, add_at, install_named, install_all,
  vmt_install_shared, vm_new,
}
use carrica.Vms.Spread.{installed, install_either-Holds, AllHold, Listed}
use carrica.Vms.Shared.{IsSystem}

-- What a new VM gets of the shared modules: all that have a name, in order.
abbrev pub named : Option String → Module → List Module
named none m = []
named (some _) m = installed m ∷ []

abbrev pub given : List Module → List Module
given [] = []
given (m ∷ ms) = named m.def.name m ++ given ms

install_named-Holds :
    (name : Option String) (m : Module) {t : Growing Module} {xs : List Module}
    → Holds no_module t xs
    → (u : Growing Module) × (install_named name m t ≡ some u)
      × Holds no_module u (xs ++ named name m)
unfolding install_either
install_named-Holds none m {t} h = (t, refl, rw append-nil h)
install_named-Holds (some _) m h = install_either-Holds m h

pub install_all-Holds :
    (ms : List Module) {t : Growing Module} {xs : List Module}
    → Holds no_module t xs
    → (u : Growing Module) × (install_all ms t ≡ some u) × Holds no_module u (xs ++ given ms)
unfolding install_all
install_all-Holds [] {t} h = (t, refl, rw append-nil h)
install_all-Holds (m ∷ ms) {t} {xs} h =
    let (u, runs, held) = install_named-Holds m.def.name m h in
    let (v, loops, held') = install_all-Holds ms held in
    (v, rw runs loops, rw (append_assoc xs (named m.def.name m) (given ms)) at held')

pub Holds-empty : {A : Type 0} (b : A) → Holds b empty []
Holds-empty b = record { spare = 0; cells = refl; max = refl; count = refl; room = λ lt. lt }

set-front :
    {A : Type 0} (xs ys : List A) (i : ℕ) (v : A)
    → i < length xs
    → set (xs ++ ys) i v ≡ set xs i v ++ ys
set-front [] ys i v lt = absurd (omega arith)
set-front (x ∷ xs) ys zero v lt = refl
set-front (x ∷ xs) ys (suc i) v lt = ap (λ zs. x ∷ zs) (set-front xs ys i v (omega arith))

length-set : {A : Type 0} (xs : List A) (i : ℕ) (v : A) → length (set xs i v) ≡ length xs
length-set [] i v = refl
length-set (x ∷ xs) zero v = refl
length-set (x ∷ xs) (suc i) v = ap suc (length-set xs i v)

pub Holds-set :
    {A : Type 0} {b : A} {t : Growing A} {xs : List A} (i : ℕ) (v : A)
    → i < length xs
    → Holds b t xs
    → Holds b (record t { cells = set t.cells i v }) (set xs i v)
Holds-set {b} {xs} i v lt h = record {
  spare = h.spare;
  cells = rw h.cells (set-front xs (replicate h.spare b) i v lt);
  max = rw (length-set xs i v) h.max;
  count = rw (length-set xs i v) h.count;
  room = h.room;
}

Listed-end : (v : ℕ) (vs : List (Option ℕ)) → Listed v (vs ++ some v ∷ [])
Listed-end v [] = inl refl
Listed-end v (none ∷ vs) = Listed-end v vs
Listed-end v (some u ∷ vs) = inr (Listed-end v vs)

Listed-set : (v i : ℕ) (vs : List (Option ℕ)) → i < length vs → Listed v (set vs i (some v))
Listed-set v i [] lt = absurd (omega arith)
Listed-set v zero (u ∷ vs) lt = inl refl
Listed-set v (suc i) (none ∷ vs) lt = Listed-set v i vs (omega arith)
Listed-set v (suc i) (some u ∷ vs) lt = inr (Listed-set v i vs (omega arith))

free_cell-lt : (vs : List (Option ℕ)) (i : ℕ) → free_cell vs ≡ some i → i < length vs
free_cell-lt [] i e = cc
free_cell-lt (none ∷ vs) i e = ground arith
free_cell-lt (some u ∷ vs) i e = elim (Option-cases (free_cell vs)) [
  | inl n ↦ ground arith
  | inr (j, f) ↦ ground (arith, free_cell-lt vs j f)
]

-- The VM v has been added with the modules it had; the other VMs are as before.
record Adds (sh : List Module) (v : ℕ) (s s' : System) : Type 0 where
  cells : List (Option ℕ)
  listed : Listed v cells
  vmt : Holds none s'.vmt cells
  own : (s'.vms v).id < length cells
  shared : s'.shared ≡ s.shared
  modules : (s'.vms v).modules ≡ (s.vms v).modules
  valid : (s'.vms v).valid ≡ (s.vms v).valid
  others : (u : ℕ) → u ≢ v → s'.vms u ≡ s.vms u

add_at-Adds :
    {sh : List Module} {vs : List (Option ℕ)} (v : ℕ) (o : Option ℕ) (s : System)
    → Holds none s.vmt vs
    → free_cell vs ≡ o
    → (s' : System) × (add_at o v s ≡ some s') × Adds sh v s s'
unfolding expand store
add_at-Adds {vs} v (some i) s h free = (
  use_cell v i s,
  refl,
  record {
    cells = set vs i (some v);
    listed = Listed-set v i vs (free_cell-lt vs i free);
    vmt = Holds-set i (some v) (free_cell-lt vs i free) h;
    own = rw (update_self s.vms v, length-set vs i (some v)) (free_cell-lt vs i free);
    shared = refl;
    modules = rw (update_self s.vms v);
    valid = rw (update_self s.vms v);
    others = λ u ne. update_ne s.vms v u _ ne;
  },
)
add_at-Adds {vs} v none s h free =
    let (t, runs, held) = store-Roomy (some v) (expand-Roomy 8 (omega arith) h) in
    (
      set_vm v (record (s.vms v) { id = s.vmt.count }) (record s { vmt = t }),
      rw runs,
      record {
        cells = vs ++ some v ∷ [];
        listed = Listed-end v vs;
        vmt = held;
        own = rw (update_self s.vms v, h.count, length-append vs (some v ∷ [])) (omega arith);
        shared = refl;
        modules = rw (update_self s.vms v);
        valid = rw (update_self s.vms v);
        others = λ u ne. update_ne s.vms v u _ ne;
      },
    )

-- A valid VM v in the table of VMs that has every shared module with a name, in order, and nothing
-- else; the shared modules and the other VMs are as before.
pub record Creates (sh : List Module) (v : ℕ) (s s' : System) : Type 0 where
  pub cells : List (Option ℕ)
  pub listed : Listed v cells
  pub system : IsSystem sh cells s'
  pub modules : Holds no_module (s'.vms v).modules (given sh)
  pub valid : (s'.vms v).valid ≡ true
  pub own : (s'.vms v).id < length cells
  pub others : (u : ℕ) → u ≢ v → s'.vms u ≡ s.vms u

blanked : ℕ → System → System
blanked v s = set_vm v (record no_vm { valid = true }) s

pub AllHold-others :
    {f g : ℕ → Vm} {ms : List Module} (v : ℕ)
    → AllHold f
    → Holds no_module (g v).modules ms
    → ((u : ℕ) → u ≢ v → g u ≡ f u)
    → AllHold g
AllHold-others {ms} v all h others u = elim (Bool-cases (u == v)) [
  | inl e ↦ (ms, rw (eq→≡ u v e) h)
  | inr ne ↦ ((all u).0, rw (others u (λ e. ground arith)) (all u).1)
]

module _ {sh : List Module} {vs : List (Option ℕ)} {s : System} (v : ℕ)
    (is : IsSystem sh vs s) where
  installs :
      (s1 : System) (t : Growing Module)
      → Adds sh v (blanked v s) s1
      → install_all sh empty ≡ some t
      → vmt_install_shared v s1 ≡ some (set_vm v (record (s1.vms v) { modules = t }) s1)
  unfolding vmt_install_shared blanked
  installs s1 t adds runs =
      rw (adds.shared, contents-Holds is.shared, adds.modules, update_self s.vms v, runs)

  created :
      (s1 : System) (t : Growing Module)
      → Adds sh v (blanked v s) s1
      → Holds no_module t (given sh)
      → Creates sh v s (set_vm v (record (s1.vms v) { modules = t }) s1)
  unfolding blanked
  created s1 t adds held =
      let others : (u : ℕ)
          → u ≢ v
          → update s1.vms v (record (s1.vms v) { modules = t }) u ≡ s.vms u =
        λ u ne. update_ne s1.vms v u _ ne ∙ adds.others u ne ∙ update_ne s.vms v u _ ne in
      let modules : Holds no_module (update s1.vms v (record (s1.vms v) { modules = t }) v).modules
          (given sh) =
        rw (update_self s1.vms v) held in
      record {
        cells = adds.cells;
        listed = adds.listed;
        system = record {
          shared = rw adds.shared is.shared;
          vmt = adds.vmt;
          vms = AllHold-others v is.vms modules others;
        };
        modules = modules;
        valid = rw (update_self s1.vms v, adds.valid, update_self s.vms v);
        own = rw (update_self s1.vms v) adds.own;
        others = others;
      }

  pub vm_new-Creates : (s' : System) × (vm_new v s ≡ some s') × Creates sh v s s'
  unfolding vm_new vmt_add blanked
  vm_new-Creates =
      let (s1, adds_runs, adds) = add_at-Adds v (free_cell vs) (blanked v s) is.vmt refl in
      let (t, runs, held) = install_all-Holds sh (Holds-empty no_module) in
      (
        set_vm v (record (s1.vms v) { modules = t }) s1,
        rw (contents-Holds is.vmt, adds_runs) (installs s1 t adds runs),
        created s1 t adds held,
      )
