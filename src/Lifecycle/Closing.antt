-- ===== src/Lifecycle/Closing.antt =====
-- vmRelease of src/vm.c: the methods that it frees and the foreign objects that it finalizes.
use carrica.Base.{
  sym, eq→≡, ℕ, ◌≡◌, ◌∙◌, refl, ap, String, true, Option, none, some, ◌⊎◌, inl, inr, List, [], ◌∷◌,
  update, update_self, if_true, if_false, ◌==◌, Bool-cases,
}
use carrica.Base.Int.{ℤ}
use carrica.Lua.Value.{Value, Light, nil, str}
use carrica.Lua.Equality.{eq_self_key}
use carrica.Lua.Api.{T, set_registry}
use carrica.Reference.{vm_finalize, count_drop, drop_count}
use carrica.TableClass.Entry.{tevm_finalize}
use carrica.World.{
  World, Run, Ref, ReRef, Method, Share, share_array, share_table, share_lsobj, share_table_entry,
  ok, and_then, Cmd, ◌>>◌,
}
use carrica.Lifecycle.{
  free_methods, finalize_as, wren_free_vm, vm_release, blank_cvm, stored_system, on_lua,
  remove_handlers,
}
use carrica.LuaSide.Alive.{Alive, count_drop-Alive}
use carrica.Vms.{System}
use carrica.Vms

abbrev pub freed : List (String × ℕ) → (ℕ → Option Method) → ℕ → Option Method
freed [] f = f
freed ((k, p) ∷ t) f = freed t (update f p none)

-- The method is in the hash.
abbrev pub Hashed : ℕ → List (String × ℕ) → Type 0
Hashed p [] = ⊥
Hashed p ((k, q) ∷ t) = (p ≡ q) ⊎ Hashed p t

pub free_methods-freed :
    (t : List (String × ℕ)) (w : World)
    → free_methods t (record w { method_hash = t })
      ≡ ok tt (record w { method_hash = []; methods = freed t w.methods })
unfolding free_methods
free_methods-freed [] w = refl
free_methods-freed ((k, p) ∷ t) w =
    rw (eq_self_key (str k) refl)
      (free_methods-freed t (record w { methods = update w.methods p none }))

freed-none :
    (t : List (String × ℕ)) (f : ℕ → Option Method) (p : ℕ) → f p ≡ none → freed t f p ≡ none
freed-none [] f p e = e
freed-none ((k, q) ∷ t) f p e = freed-none t (update f q none) p (elim (Bool-cases (p == q)) [
  | inl same ↦ if_true (p == q) _ _ same
  | inr other ↦ if_false (p == q) _ _ other ∙ e
])

pub freed-Hashed :
    (t : List (String × ℕ)) (f : ℕ → Option Method) (p : ℕ) → Hashed p t → freed t f p ≡ none
freed-Hashed [] f p h = absurd h
freed-Hashed ((k, q) ∷ t) f p (inl e) =
    freed-none t (update f q none) p (ap (update f q none) e ∙ update_self f q none)
freed-Hashed ((k, q) ∷ t) f p (inr h) = freed-Hashed t (update f q none) p h

-- A foreign object that can be finalized: a shared array or table stands for a reference that Lua
-- has not collected.
abbrev pub Stands : (ℕ → Ref) → Share → Option ℕ → Type 0
Stands refs share_array none = ⊥
Stands refs share_table none = ⊥
Stands refs share_array (some r) = (refs r).allocated ≡ true
Stands refs share_table (some r) = (refs r).allocated ≡ true
Stands refs _ _ = Unit

abbrev pub AllStand : List ℕ → (ℕ → ReRef) → (ℕ → Ref) → Type 0
AllStand [] rerefs refs = Unit
AllStand (n ∷ ns) rerefs refs =
    Stands refs (rerefs n).kind (rerefs n).pref × AllStand ns rerefs refs

module _ (refs refs' : ℕ → Ref) (same : (r : ℕ) → (refs' r).allocated ≡ (refs r).allocated) where
  Stands-refs : (k : Share) (p : Option ℕ) → Stands refs k p → Stands refs' k p
  Stands-refs share_array none h = absurd h
  Stands-refs share_table none h = absurd h
  Stands-refs share_array (some r) h = same r ∙ h
  Stands-refs share_table (some r) h = same r ∙ h
  Stands-refs share_lsobj _ h = tt
  Stands-refs share_table_entry _ h = tt

  AllStand-refs :
      (heap : List ℕ) (rerefs : ℕ → ReRef) → AllStand heap rerefs refs → AllStand heap rerefs refs'
  AllStand-refs [] rerefs h = tt
  AllStand-refs (n ∷ ns) rerefs (stands, h) =
      (Stands-refs (rerefs n).kind (rerefs n).pref stands, AllStand-refs ns rerefs h)

-- Finalizers write only counts, and what the registry has for entries of Tables.
pub record Finalizes (w : World) (refs : ℕ → Ref) (registry : Light → Value) : Type 0 where
  pub containers : (a : ℕ) → registry (Light.cvm a) ≡ w.registry (Light.cvm a)
  pub names : (a : ℕ) → registry (Light.cvm_name a) ≡ w.registry (Light.cvm_name a)
  pub alive : (r : ℕ) → Alive r w → Alive r (record w { refs = refs; registry = registry })
  pub allocated : (r : ℕ) → (refs r).allocated ≡ (w.refs r).allocated

same_allocated :
    (r r' : ℕ) (z : ℤ) (w : World)
    → (update w.refs r (record (w.refs r) { ref_count = z }) r').allocated ≡ (w.refs r').allocated
same_allocated r r' z w = elim (Bool-cases (r' == r)) [
  | inl e ↦ rw e (ap (λ x. (w.refs x).allocated) (sym (eq→≡ r' r e)))
  | inr ne ↦ rw ne refl
]

finalized :
    (r n : ℕ) (w : World)
    → (w.rerefs n).pref ≡ some r
    → (w.refs r).allocated ≡ true
    → (refs : ℕ → Ref) × (registry : Light → Value) × (vm_finalize n w
        ≡ ok tt (record w { refs = refs; registry = registry }))
      × Finalizes w refs registry
unfolding vm_finalize
finalized r n w e there = (
  update w.refs r (record (w.refs r) { ref_count = drop_count (w.refs r).ref_count }),
  w.registry,
  rw e (ap {A = Run T} (λ o. and_then o (λ _. count_drop r)) (if_true _ _ _ there)),
  record {
    containers = λ a. refl;
    names = λ a. refl;
    alive = λ r' held. count_drop-Alive r' r w held;
    allocated = λ r'. same_allocated r r' _ w;
  },
)

finalize_as-Finalizes :
    (k : Share) (p : Option ℕ) (n : ℕ) (w : World)
    → (w.rerefs n).pref ≡ p
    → Stands w.refs k p
    → (refs : ℕ → Ref) × (registry : Light → Value) × (finalize_as k n w
        ≡ ok tt (record w { refs = refs; registry = registry }))
      × Finalizes w refs registry
unfolding vm_finalize tevm_finalize
finalize_as-Finalizes share_array none n w e h = absurd h
finalize_as-Finalizes share_table none n w e h = absurd h
finalize_as-Finalizes share_array (some r) n w e h = finalized r n w e h
finalize_as-Finalizes share_table (some r) n w e h = finalized r n w e h
finalize_as-Finalizes share_table_entry p n w e h = (
  w.refs,
  _,
  refl,
  record {
    containers = λ a. refl;
    names = λ a. refl;
    alive = λ r held. held;
    allocated = λ r. refl;
  },
)
finalize_as-Finalizes share_lsobj p n w e h = (
  w.refs,
  w.registry,
  refl,
  record {
    containers = λ a. refl;
    names = λ a. refl;
    alive = λ r held. held;
    allocated = λ r. refl;
  },
)

pub wren_free_vm-Finalizes :
    (heap : List ℕ) (w : World)
    → AllStand heap w.rerefs w.refs
    → (refs : ℕ → Ref) × (registry : Light → Value) × (wren_free_vm heap w
        ≡ ok tt (record w { refs = refs; registry = registry }))
      × Finalizes w refs registry
unfolding wren_free_vm
wren_free_vm-Finalizes [] w h = (
  w.refs,
  w.registry,
  refl,
  record {
    containers = λ a. refl;
    names = λ a. refl;
    alive = λ r held. held;
    allocated = λ r. refl;
  },
)
wren_free_vm-Finalizes (n ∷ ns) w (stands, h) =
    let (refs, registry, runs, first) =
      finalize_as-Finalizes (w.rerefs n).kind (w.rerefs n).pref n w refl stands in
    let (refs', registry', loops, rest) =
      wren_free_vm-Finalizes ns (record w { refs = refs; registry = registry })
        (AllStand-refs w.refs refs first.allocated ns w.rerefs h) in
    (
      refs',
      registry',
      rw runs loops,
      record {
        containers = λ a. rest.containers a ∙ first.containers a;
        names = λ a. rest.names a ∙ first.names a;
        alive = λ r held. rest.alive r (first.alive r held);
        allocated = λ r. rest.allocated r ∙ first.allocated r;
      },
    )

-- The world when wrenFreeVM is called.
abbrev pub shut : System → World → World
shut s w = record w {
  registry = set_registry w.registry (Light.cvm w.cvm.address) nil;
  methods = freed w.method_hash w.methods;
  method_hash = [];
  system = s;
}

pub vm_release-shut :
    (heap : List ℕ) (w : World) (s : System)
    → w.cvm.vm ≡ true
    → w.cvm.lua ≡ true
    → Vms.vm_release w.cvm.address w.system ≡ some s
    → vm_release heap w ≡ (wren_free_vm heap >> blank_cvm) (shut s w)
unfolding vm_release
vm_release-shut heap w s valid lua runs =
    if_true w.cvm.vm _ _ valid
    ∙ ap (λ o. and_then (stored_system o w) (λ _. removal >> after)) runs
    ∙ ap (λ l. and_then (on_lua l remove_handlers (record w { system = s })) (λ _. after)) lua
    ∙ rw
        (free_methods-freed w.method_hash (record w {
          registry = set_registry w.registry (Light.cvm w.cvm.address) nil;
          system = s;
        }))
        refl
  where
    removal : Cmd T
    removal = λ u. on_lua u.cvm.lua remove_handlers u

    after : Cmd T
    after = (λ u. free_methods u.method_hash u) >> (wren_free_vm heap >> blank_cvm)
