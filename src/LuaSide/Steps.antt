-- ===== src/LuaSide/Steps.antt =====
-- The shared objects while both languages hold, release, write and collect them, in any order.
use carrica.Base.{
  ℕ, suc, ◌≡◌, ◌≢◌, ◌∙◌, refl, sym, ap, ◌⊎◌, inl, inr, Bool, true, false, List, [], ◌∷◌, Bool-cases,
  if◌then◌else◌, ◌==◌, eq→≡, eq_self,
}
use mathlib.Core.Bool.{true≢false}
use carrica.Base.Int.{pos}
use carrica.Lua.Value.{Value, ref}
use carrica.Lua.Api.{T}
use carrica.Lua.Args.{from_lua, leave, check_value, is_meta, named_meta, as_ref, arg_is}
use carrica.Marshal.{MetaTable, meta_of}
use carrica.Reference.{vm_hold, vm_release, vm_finalize, pref_of, hold_ref, release_ref}
use carrica.World.{
  World, Run, ok, raised, fault, out_of_fuel, OnReturn, and_then, OnReturn-then, OnReturn-if,
  of_return, Cmd, pure, ◌>>=◌,
}
use carrica.LuaSide.Objects.{
  reference_hold, reference_release, reference_set_ref, reference_gc, collect, write_ref,
  is_table_value, lua_free,
}
use carrica.LuaSide.Alive.{
  Alive, hold_ref-Alive, release_ref-Alive, or_fault-Alive, receiver-Alive, written-Alive,
  collected-other, collected-held, lua_free-Alive,
}

-- The reference r' may be collected: it is another one than r, or its count is 2 at least.
abbrev pub Spares : (r r' : ℕ) → World → Type 0
Spares r r' w = (r' ≢ r) ⊎ ((n : ℕ) × ((w.refs r).ref_count ≡ pos (suc (suc n))))

-- What may happen to shared arrays and tables: from Lua, with any arguments, hold, release, setRef
-- and the collection of a reference, which is then freed; from Wren, on any object, hold, release and its finalizer.
pub data Step (r : ℕ) : World → World → Type 0 where
  lua_hold :
      (m : MetaTable) (v : Value) {vs : List Value} {w w' : World}
      → from_lua (reference_hold m) (v ∷ []) w ≡ ok vs w'
      → Step r w w'
  lua_release :
      (m : MetaTable) (v : Value) {vs : List Value} {w w' : World}
      → from_lua (reference_release m) (v ∷ []) w ≡ ok vs w'
      → Step r w w'
  lua_set_ref :
      (m : MetaTable) (v u : Value) {vs : List Value} {w w' : World}
      → from_lua (reference_set_ref m) (v ∷ u ∷ []) w ≡ ok vs w'
      → Step r w w'
  lua_gc :
      (m : MetaTable) (r' : ℕ) {vs : List Value} {w w' : World}
      → Spares r r' w
      → from_lua (reference_gc m) (ref r' ∷ []) w ≡ ok vs w'
      → Step r w (lua_free r' w')
  wren_hold : {w w' : World} → vm_hold w ≡ ok tt w' → Step r w w'
  wren_release : {w w' : World} → vm_release w ≡ ok tt w' → Step r w w'
  wren_finalize : (n : ℕ) {w w' : World} → vm_finalize n w ≡ ok tt w' → Step r w w'

pub data Steps (r : ℕ) : World → World → Type 0 where
  done : {w : World} → Steps r w w
  step : {u v w : World} → Step r u v → Steps r v w → Steps r u w

-- The checks of the first argument leave the world as it is.
as_ref-keeps : (P : World → Type 0) (v : Value) (w : World) → P w → OnReturn P (as_ref v w)
as_ref-keeps P (ref r) w h = h
as_ref-keeps P _ w h = tt

check_value-keeps :
    (P : World → Type 0) (m : MetaTable) (v : Value) (w : World)
    → P w
    → OnReturn P (check_value m v w)
check_value-keeps P m v w h =
    OnReturn-if P (is_meta (named_meta m w) (meta_of v w)) (as_ref v w) (raised "bad argument" w)
      (as_ref-keeps P v w h) tt

module _ (r : ℕ) where
  leave-Alive :
      (old : World) (run : Run ℕ) → OnReturn (Alive r) run → OnReturn (Alive r) (leave old run)
  leave-Alive old (ok n w) h = h
  leave-Alive old (raised e w) h = tt
  leave-Alive old fault h = tt
  leave-Alive old out_of_fuel h = tt

  then_pure-Alive :
      (n : ℕ) (f : ℕ → Cmd T) (r' : ℕ) (w : World)
      → OnReturn (Alive r) (f r' w)
      → OnReturn (Alive r) ((f r' >>= λ _. pure n) w)
  then_pure-Alive n f r' w h =
      OnReturn-then (Alive r) (Alive r) (f r' w) (λ _. pure n) h (λ _ u alive. alive)

  hold-Alive :
      (m : MetaTable) (v : Value) (w : World)
      → Alive r w
      → OnReturn (Alive r) (from_lua (reference_hold m) (v ∷ []) w)
  hold-Alive m v w h = leave-Alive w _ (
      OnReturn-then (Alive r) (Alive r) (check_value m v (record w { stack = v ∷ []; base = 0 }))
        (λ r'. hold_ref r' >>= λ _. pure 0) (check_value-keeps (Alive r) m v _ h)
        (λ r' u alive. then_pure-Alive 0 hold_ref r' u (hold_ref-Alive r r' u alive)))

  release-Alive :
      (m : MetaTable) (v : Value) (w : World)
      → Alive r w
      → OnReturn (Alive r) (from_lua (reference_release m) (v ∷ []) w)
  release-Alive m v w h = leave-Alive w _ (
      OnReturn-then (Alive r) (Alive r) (check_value m v (record w { stack = v ∷ []; base = 0 }))
        (λ r'. release_ref r' >>= λ _. pure 0) (check_value-keeps (Alive r) m v _ h)
        (λ r' u alive. then_pure-Alive 0 release_ref r' u (release_ref-Alive r r' u alive)))

  checked-collect :
      (b : Bool) (r' : ℕ) (u : World)
      → OnReturn (Alive r) (collect r' u)
      → OnReturn (Alive r) (and_then (if b then ok r' u else raised "bad argument" u) collect)
  checked-collect true r' u h = h
  checked-collect false r' u h = tt

  gc-Alive :
      (m : MetaTable) (r' : ℕ) (w : World)
      → Spares r r' w
      → Alive r w
      → OnReturn (Alive r) (from_lua (reference_gc m) (ref r' ∷ []) w)
  gc-Alive m r' w spares h = leave-Alive w _ (
      checked-collect
        (is_meta (named_meta m (record w { stack = ref r' ∷ []; base = 0 })) (w.refs r').meta) r'
        (record w { stack = ref r' ∷ []; base = 0 }) (collected spares))
    where
      collected :
          Spares r r' w
          → OnReturn (Alive r) (collect r' (record w { stack = ref r' ∷ []; base = 0 }))
      collected (inl ne) = collected-other r r' (record w { stack = ref r' ∷ []; base = 0 }) ne h
      collected (inr (n, count)) = elim (Bool-cases (r' == r)) [
        | inl e ↦
            rw (eq→≡ r' r e)
              (collected-held r n (record w { stack = ref r ∷ []; base = 0 }) count h.0)
        | inr e ↦
            collected-other r r' (record w { stack = ref r' ∷ []; base = 0 })
              (λ same. true≢false (sym (eq_self r) ∙ ap (λ x. x == r) (sym same) ∙ e)) h
      ]

  set_ref-Alive :
      (m : MetaTable) (v u : Value) (w : World)
      → Alive r w
      → OnReturn (Alive r) (from_lua (reference_set_ref m) (v ∷ u ∷ []) w)
  set_ref-Alive m v u w h = leave-Alive w _ (
      OnReturn-then (λ x. x ≡ record w { stack = u ∷ v ∷ []; base = 0 }) (Alive r)
        (check_value m v (record w { stack = u ∷ v ∷ []; base = 0 }))
        (λ r'. arg_is is_table_value 2 >>= write_ref r')
        (check_value-keeps (λ x. x ≡ record w { stack = u ∷ v ∷ []; base = 0 }) m v _ refl)
        (λ r' x e.
          rw e (written-Alive r r' v u (record w { stack = u ∷ v ∷ []; base = 0 }) refl refl h)))

  -- Each step keeps the table of the reference, and its count.
  Step-Alive : {w w' : World} → Step r w w' → Alive r w → Alive r w'
  unfolding vm_hold vm_release vm_finalize
  Step-Alive {w} (lua_hold m v run) h = of_return (Alive r) (hold-Alive m v w h) run
  Step-Alive {w} (lua_release m v run) h = of_return (Alive r) (release-Alive m v w h) run
  Step-Alive {w} (lua_set_ref m v u run) h = of_return (Alive r) (set_ref-Alive m v u w h) run
  Step-Alive {w} (lua_gc m r' {w' = w'} spares run) h =
      lua_free-Alive r r' w' (of_return (Alive r) (gc-Alive m r' w spares h) run)
  Step-Alive {w} (wren_hold run) h =
      of_return (Alive r) (receiver-Alive r hold_ref w (hold_ref-Alive r) h) run
  Step-Alive {w} (wren_release run) h =
      of_return (Alive r) (receiver-Alive r release_ref w (release_ref-Alive r) h) run
  Step-Alive {w} (wren_finalize n run) h =
      of_return (Alive r)
        (OnReturn-then (Alive r) (Alive r) (pref_of n w) release_ref
          (or_fault-Alive r (w.rerefs n).pref w h) (release_ref-Alive r))
        run

  -- Along any sequence of holds, releases, setRefs, finalizers and collections, from either language
  -- and at any objects, where Lua frees what it collects: a reference that has a table in the registry
  -- and a count that is not negative, and that Lua collects, if at all, only while that count is at
  -- least 2, keeps a table in the registry, and its count never falls below 0.
  pub Steps-Alive : {w w' : World} → Steps r w w' → Alive r w → Alive r w'
  Steps-Alive done h = h
  Steps-Alive (step s rest) h = Steps-Alive rest (Step-Alive s h)
