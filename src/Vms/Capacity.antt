-- ===== src/Vms/Capacity.antt =====
-- The space that the tables of modules of src/vm.c take: the doubling of vmExpandModules and vmsExpand.
use carrica.Base.{
  String, ℕ, suc, ◌+◌, ◌*◌, ◌<◌, ◌≤◌, ◌≡◌, ◌⊎◌, inl, inr, refl, true, false, some, none, List, [],
  ◌∷◌, ltb, length, arith, ◌==◌, Bool-cases, eq→≡, sym, Option, get_elem?,
}
use carrica.Modules.{
  Growing, Module, ModDef, no_module, expand, store, install_module, install_def, install_either,
  vm_install_source_def, vm_install_binary_mod, vm_module_minimum, empty, ◌>>=◌,
}
use mathlib.Core.Option.{none-ne-some, some-injective}
use carrica.Vms.{install_all, install_named}
use carrica.Vms.Creation.{given, install_all-Holds, Holds-empty}

-- The numbers of a table: nothing is allocated, or there is room behind the entries; and there are
-- no more cells than the minimum, or than twice the entries.
pub record IsSparing (minimum max count : ℕ) : Type 0 where
  pub room : ((max ≡ 0) × (count ≡ 0)) ⊎ (count < max)
  pub few : (max ≤ minimum) ⊎ (max ≤ 2 * count)

abbrev pub Sparing : {A : Type 0} → ℕ → Growing A → Type 0
Sparing minimum t = IsSparing minimum t.max t.count

grown :
    (minimum max count : ℕ)
    → 1 < minimum
    → IsSparing minimum max count
    → (max == 0) ≡ false
    → ((count + 1) == max) ≡ true
    → IsSparing minimum (max * 2) (suc count)
grown minimum max count big h ne full =
    let last : count + 1 ≡ max = eq→≡ (count + 1) max full in
    record { room = inr (omega (arith, last)); few = inr (omega (arith, last)) }

kept :
    (minimum max count : ℕ)
    → IsSparing minimum max count
    → (max == 0) ≡ false
    → ((count + 1) == max) ≡ false
    → IsSparing minimum max (suc count)
kept minimum max count h ne other = record {
  room = inr (elim h.room [ inl (e, f) ↦ ground arith | inr lt ↦ ground arith ]);
  few = elim h.few [ inl le ↦ inl le | inr le ↦ inr (omega arith) ];
}

module _ {A : Type 0} where
  store-numbers :
      (v : A) (t t' : Growing A) → store v t ≡ some t' → (t'.max ≡ t.max) × (t'.count ≡ suc t.count)
  unfolding store
  store-numbers v t t' run = elim (Bool-cases (ltb t.count (length t.cells))) [
    | inl e ↦ ground arith
    | inr e ↦ ground arith
  ]

  expand-Sparing :
      (b : A) (minimum : ℕ) (t : Growing A)
      → 1 < minimum
      → Sparing minimum t
      → IsSparing minimum (expand b minimum t).max (suc (expand b minimum t).count)
  unfolding expand
  expand-Sparing b minimum t big h = elim (Bool-cases (t.max == 0)) [
    | inl e ↦
        let z : t.max ≡ 0 = eq→≡ t.max 0 e in
        rw e (record { room = inr (omega (arith, h.room, z)); few = inl (omega arith) })
    | inr ne ↦ elim (Bool-cases ((t.count + 1) == t.max)) [
      | inl full ↦ rw (ne, full) (grown minimum t.max t.count big h ne full)
      | inr other ↦ rw (ne, other) (kept minimum t.max t.count h ne other)
    ]
  ]

  stored-Sparing :
      (b v : A) (minimum : ℕ) (t t' : Growing A)
      → 1 < minimum
      → Sparing minimum t
      → store v (expand b minimum t) ≡ some t'
      → Sparing minimum t'
  stored-Sparing b v minimum t t' big h run =
      let (max, count) = store-numbers v (expand b minimum t) t' run in
      rw (max, count) (expand-Sparing b minimum t big h)

bind-cases :
    {A B : Type 0} (o : Option A) (f : A → Option B) (b : B)
    → (o >>= f) ≡ some b
    → (a : A) × (o ≡ some a) × (f a ≡ some b)
bind-cases none f b run = absurd (none-ne-some b run)
bind-cases (some a) f b run = (a, refl, run)

install_def-Sparing :
    (d : ModDef) (minimum : ℕ) (t t' : Growing Module)
    → 1 < minimum
    → Sparing minimum t
    → install_def minimum d t ≡ some t'
    → Sparing minimum t'
unfolding install_def
install_def-Sparing d minimum t t' big h run =
    let (m, found, ran) =
      bind-cases (get_elem? (expand no_module minimum t).cells (expand no_module minimum t).count)
        (λ m. store (record m { def = d }) (expand no_module minimum t)) t' run in
    stored-Sparing no_module (record m { def = d }) minimum t t' big h ran

-- One of the two branches of an installation is what ran.
branch-cases :
    {A B : Type 0} (o : Option A) (x y : Option B) (b : B)
    → (elim o [ some _ ↦ x | none ↦ y ]) ≡ some b
    → (x ≡ some b) ⊎ (y ≡ some b)
branch-cases none x y b run = inr run
branch-cases (some a) x y b run = inl run

install_either-Sparing :
    (m : Module) (t t' : Growing Module)
    → Sparing vm_module_minimum t
    → install_either m t ≡ some t'
    → Sparing vm_module_minimum t'
unfolding install_either vm_install_source_def vm_install_binary_mod install_module
install_either-Sparing m t t' h run =
    elim (branch-cases m.bind_foreign_method (vm_install_binary_mod m t)
      (vm_install_source_def m.def t) t' run) [
        | inl ran ↦ stored-Sparing no_module m vm_module_minimum t t' (omega arith) h ran
        | inr ran ↦ install_def-Sparing m.def vm_module_minimum t t' (omega arith) h ran
      ]

install_named-Sparing :
    (name : Option String) (m : Module) (t t' : Growing Module)
    → Sparing vm_module_minimum t
    → install_named name m t ≡ some t'
    → Sparing vm_module_minimum t'
unfolding install_named
install_named-Sparing none m t t' h run = rw (sym (some-injective t t' run)) h
install_named-Sparing (some n) m t t' h run = install_either-Sparing m t t' h run

install_all-Sparing :
    (ms : List Module) (t t' : Growing Module)
    → Sparing vm_module_minimum t
    → install_all ms t ≡ some t'
    → Sparing vm_module_minimum t'
unfolding install_all
install_all-Sparing [] t t' h run = rw (sym (some-injective t t' run)) h
install_all-Sparing (m ∷ ms) t t' h run =
    let (u, first, rest) = bind-cases (install_named m.def.name m t) (install_all ms) t' run in
    install_all-Sparing ms u t' (install_named-Sparing m.def.name m t u h first) rest

empty-Sparing : Sparing vm_module_minimum (empty {A = Module})
empty-Sparing = record { room = inl (refl, refl); few = inl (omega arith) }

-- However many shared modules ms there are when a VM is made, installing them in it never writes
-- outside its table of modules, the table has an entry for each module with a name, and it has at
-- most 16 cells or twice as many cells as entries.
pub install_all-bounded :
    (ms : List Module)
    → (t : Growing Module) × (install_all ms empty ≡ some t)
      × (t.count ≡ length (given ms))
      × ((t.max ≤ 16) ⊎ (t.max ≤ 2 * t.count))
install_all-bounded ms =
    let (t, runs, held) = install_all-Holds ms (Holds-empty no_module) in
    (t, runs, held.count, (install_all-Sparing ms empty t empty-Sparing runs).few)
