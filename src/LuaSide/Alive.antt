-- ===== src/LuaSide/Alive.antt =====
-- The tables behind shared objects while both languages hold, release and write them: src/carrica.c
-- and avmHold, avmRelease, avmFinalize of src/cls_array.c.
use carrica.Base.{
  ℕ, zero, suc, ◌≡◌, ◌≢◌, ◌∙◌, refl, sym, inl, inr, Bool, true, false, Option, none, some, [], ◌∷◌,
  arith, Bool-cases, ◌==◌, eq→≡, eq_self,
}
use mathlib.Core.Bool.{true≢false}
use carrica.Base.Int.{int_eq, ℤ, pos, negsuc, ◌+ℤ◌, in_int}
use carrica.Lua.Value.{Value, Light, nil, table}
use carrica.Lua.Api.{T, set_registry, or_fault}
use carrica.Wren.Value.{Wren}
use carrica.Wren.Api.{as_foreign, wren_get_slot_foreign, int_in_range}
use carrica.Reference.{
  pref_of, hold_ref, release_ref, in_memory, count_up, count_drop, set_ref_count, drop_count,
}
use carrica.World.{World, fault, OnReturn, OnReturn-then, OnReturn-if, Cmd, pure, ◌>>=◌, ◌>>◌}
use carrica.LuaSide.Objects.{
  count_down, gc_counted, collect, write_ref, release_handle, forget_handle, is_table_value,
  lua_free,
}

-- The reference has a table in the registry, and its count is not negative.
abbrev pub IsNat : ℤ → Type 0
IsNat z = (n : ℕ) × (z ≡ pos n)

abbrev pub Alive : ℕ → World → Type 0
Alive r w = ((a : ℕ) × (w.registry (Light.ref r) ≡ table a)) × IsNat (w.refs r).ref_count

hold-IsNat : (z : ℤ) → IsNat z → IsNat (z +ℤ pos 1)
hold-IsNat z (n, e) = rw e (suc n, ground arith)

drop-IsNat : (z : ℤ) → IsNat z → IsNat (drop_count z)
drop-IsNat z (zero, e) = rw e (zero, refl)
drop-IsNat z (suc n, e) = rw e (n, refl)

module _ (r : ℕ) where
  pub set_ref_count-Alive :
      (r' : ℕ) (z : ℤ) (w : World)
      → Alive r w
      → (r ≡ r' → IsNat z)
      → OnReturn (Alive r) (set_ref_count r' z w)
  set_ref_count-Alive r' z w (held, count) new = elim (Bool-cases (r == r')) [
    | inl e ↦ (held, rw e (new (eq→≡ r r' e)))
    | inr ne ↦ (held, rw ne count)
  ]

  in_memory-Alive :
      (r' : ℕ) (f : Cmd T) (w : World)
      → OnReturn (Alive r) (f w)
      → OnReturn (Alive r) ((in_memory r' >> f) w)
  in_memory-Alive r' f w h = elim (Bool-cases (w.refs r').allocated) [
    | inl e ↦ rw e h
    | inr e ↦ rw e tt
  ]

  count_up-Alive : (r' : ℕ) (w : World) → Alive r w → OnReturn (Alive r) (count_up r' w)
  count_up-Alive r' w alive = elim (Bool-cases (in_int ((w.refs r').ref_count +ℤ pos 1))) [
    | inl e ↦ rw e (set_ref_count-Alive r' _ w alive (λ same. rw (sym same) (hold-IsNat _ alive.1)))
    | inr e ↦ rw e tt
  ]

  pub hold_ref-Alive : (r' : ℕ) (w : World) → Alive r w → OnReturn (Alive r) (hold_ref r' w)
  hold_ref-Alive r' w alive = in_memory-Alive r' (count_up r') w (count_up-Alive r' w alive)

  pub count_drop-Alive : (r' : ℕ) (w : World) → Alive r w → OnReturn (Alive r) (count_drop r' w)
  count_drop-Alive r' w alive =
      set_ref_count-Alive r' _ w alive (λ same. rw (sym same) (drop-IsNat _ alive.1))

  pub release_ref-Alive : (r' : ℕ) (w : World) → Alive r w → OnReturn (Alive r) (release_ref r' w)
  release_ref-Alive r' w alive = in_memory-Alive r' (count_drop r') w (count_drop-Alive r' w alive)

  -- What Lua frees keeps the table of a reference.
  pub lua_free-Alive : (r' : ℕ) (w : World) → Alive r w → Alive r (lua_free r' w)
  lua_free-Alive r' w (held, count) = elim (Bool-cases (r == r')) [
    | inl e ↦ (held, rw e (rw (eq→≡ r r' e) at count))
    | inr ne ↦ (held, rw ne count)
  ]

  as_foreign-Alive : (v : Wren) (w : World) → Alive r w → OnReturn (Alive r) (as_foreign v w)
  as_foreign-Alive (Wren.foreign n) w h = h
  as_foreign-Alive _ w h = tt

  pub or_fault-Alive : (o : Option ℕ) (w : World) → Alive r w → OnReturn (Alive r) (or_fault o w)
  or_fault-Alive none w h = tt
  or_fault-Alive (some r') w h = h

  -- A method of Wren that goes to the reference of its receiver.
  pub receiver-Alive :
      (f : ℕ → Cmd T) (w : World)
      → ((r' : ℕ) (u : World) → Alive r u → OnReturn (Alive r) (f r' u))
      → Alive r w
      → OnReturn (Alive r) ((wren_get_slot_foreign 0 >>= pref_of >>= f) w)
  receiver-Alive f w keeps h =
      OnReturn-then (Alive r) (Alive r) ((wren_get_slot_foreign 0 >>= pref_of) w) f
        (OnReturn-then (Alive r) (Alive r) (wren_get_slot_foreign 0 w) pref_of
          (as_foreign-Alive (w.slots 0) w h) (λ n u. or_fault-Alive (u.rerefs n).pref u))
        keeps

  set_registry-other :
      (w : World) (r' : ℕ) (v : Value)
      → r' ≢ r
      → set_registry w.registry (Light.ref r') v (Light.ref r) ≡ w.registry (Light.ref r)
  set_registry-other w r' v ne = ground arith

  -- What setRef writes is a table.
  pub written-Alive :
      (r' : ℕ) (v u : Value) (w : World)
      → w.stack ≡ u ∷ v ∷ []
      → w.base ≡ 0
      → Alive r w
      → OnReturn (Alive r) (write_ref r' (is_table_value u) w)
  written-Alive r' v (table a) w e b (held, count) = elim (Bool-cases (r == r')) [
    | inl same ↦ rw (e, b, same) ((a, refl), count)
    | inr ne ↦ rw (e, b, ne) (held, count)
  ]
  written-Alive r' v _ w e b h = tt

  forget_handle-Alive :
      (r' : ℕ) (o : Option Wren) (w : World) → Alive r w → OnReturn (Alive r) (forget_handle r' o w)
  forget_handle-Alive r' none w h = tt
  forget_handle-Alive r' (some x) w (held, count) = elim (Bool-cases (r == r')) [
    | inl e ↦ (held, rw e (rw (eq→≡ r r' e) at count))
    | inr ne ↦ (held, rw ne count)
  ]

  release_handle-Alive : (r' : ℕ) (w : World) → Alive r w → OnReturn (Alive r) (release_handle r' w)
  release_handle-Alive r' w h =
      OnReturn-if (Alive r) w.cvm.vm _ fault (forget_handle-Alive r' (w.refs r').handle w h) tt

  gc_counted-other :
      (r' : ℕ) (zero_now : Bool) (w : World)
      → r' ≢ r
      → Alive r w
      → OnReturn (Alive r) (gc_counted r' zero_now w)
  gc_counted-other r' false w ne h = h
  gc_counted-other r' true w ne ((a, held), count) =
      release_handle-Alive r' (record w { registry = set_registry w.registry (Light.ref r') nil })
        ((a, set_registry-other w r' nil ne ∙ held), count)

  int_in_range-Alive : (z : ℤ) (w : World) → Alive r w → OnReturn (Alive r) (int_in_range z w)
  int_in_range-Alive z w h = elim (Bool-cases (in_int z)) [ inl e ↦ rw e h | inr e ↦ rw e tt ]

  count_down-Alive :
      (r' : ℕ) (w : World) → r' ≢ r → Alive r w → OnReturn (Alive r) (count_down r' w)
  count_down-Alive r' w ne h =
      OnReturn-then (Alive r) (Alive r) (int_in_range ((w.refs r').ref_count +ℤ negsuc 0) w)
        (set_ref_count r') (int_in_range-Alive ((w.refs r').ref_count +ℤ negsuc 0) w h)
        (λ z u alive. set_ref_count-Alive r' z u alive (λ same. absurd (ne (sym same))))

  pub collected-other :
      (r' : ℕ) (w : World) → r' ≢ r → Alive r w → OnReturn (Alive r) (collect r' w)
  collected-other r' w ne h =
      OnReturn-then (Alive r) (Alive r) (count_down r' w)
        (λ _ u. (gc_counted r' (int_eq (u.refs r').ref_count (pos 0)) >>= λ _. pure 0) u)
        (count_down-Alive r' w ne h)
        (λ _ u alive.
          OnReturn-then (Alive r) (Alive r) (gc_counted r' (int_eq (u.refs r').ref_count (pos 0)) u)
            (λ _. pure 0) (gc_counted-other r' (int_eq (u.refs r').ref_count (pos 0)) u ne alive)
            (λ _ x kept. kept))

  -- The reference has its table and the count n + 1.
  Counted : ℕ → World → Type 0
  Counted n w =
      ((a : ℕ) × (w.registry (Light.ref r) ≡ table a)) × ((w.refs r).ref_count ≡ pos (suc n))

  count_to-Counted :
      (n : ℕ) (z : ℤ) (w : World)
      → z ≡ pos (suc n)
      → ((a : ℕ) × (w.registry (Light.ref r) ≡ table a))
      → OnReturn (Counted n) ((int_in_range z >>= set_ref_count r) w)
  unfolding Counted
  count_to-Counted n z w e held = elim (Bool-cases (in_int z)) [
    | inl b ↦ rw b (held, rw (eq_self r) e)
    | inr b ↦ rw b tt
  ]

  minus_one : (n : ℕ) (z : ℤ) → z ≡ pos (suc (suc n)) → z +ℤ negsuc 0 ≡ pos (suc n)
  minus_one n z e = rw e (ground arith)

  not_collected :
      (b : Bool) (w : World)
      → b ≡ false
      → Alive r w
      → OnReturn {A = ℕ} (Alive r) ((gc_counted r b >>= λ _. pure 0) w)
  not_collected true w e h = absurd (true≢false e)
  not_collected false w e h = h

  not_zero : (n : ℕ) (z : ℤ) → z ≡ pos (suc n) → int_eq z (pos 0) ≡ false
  not_zero n z e = rw e (ground arith)

  -- A collection of a reference that is held twice at least only counts.
  pub collected-held :
      (n : ℕ) (w : World)
      → (w.refs r).ref_count ≡ pos (suc (suc n))
      → ((a : ℕ) × (w.registry (Light.ref r) ≡ table a))
      → OnReturn (Alive r) (collect r w)
  unfolding Counted
  collected-held n w e held =
      OnReturn-then (Counted n) (Alive r) (count_down r w)
        (λ _ u. (gc_counted r (int_eq (u.refs r).ref_count (pos 0)) >>= λ _. pure 0) u)
        (count_to-Counted n ((w.refs r).ref_count +ℤ negsuc 0) w (minus_one n _ e) held)
        (λ _ u (there, count).
          not_collected (int_eq (u.refs r).ref_count (pos 0)) u (not_zero n _ count)
            (there, (suc n, count)))
