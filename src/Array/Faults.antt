-- ===== src/Array/Faults.antt =====
-- avmAdd and avmRemoveAt of src/cls_array.c, where they fault or loop.
use carrica.Base.{
  ℕ, suc, ◌<◌, ◌≡◌, ◌≢◌, zero, some, List, ◌∷◌, length, ltb_of_lt, leb_of_lt, eq_ne, arith,
}
use carrica.Base.Int.{ℤ, pos}
use carrica.Lua.Value.{Value, table}
use carrica.Lua.Table.{IsArray}
use carrica.Lua.Runtime.{Runtime}
use carrica.Lua.Api.{raw_table, length_of, lua_rawgeti, lua_rawseti}
use carrica.Wren.Value.{Wren}
use carrica.World.{
  share_array, World, ok, fault, pushed, OnReturn, OnReturn-and_then, no_return-and_then, of_return,
  ◌>>◌,
}
use carrica.Marshal.Plain.{from_wren, push_slot-plain}
use carrica.Reference.Object.{IsSelf, push_self-ok}
use carrica.Array.Items.{IsArray-objlen}
use carrica.Array.Index.{IsIndex, IsIndex-int}
use carrica.Array.Build.{avm_add}
use carrica.Array.Edit.{avm_remove_at, shift_loop, remove_index}

plain-ne-table : (x : Wren) {v : Value} (w : World) → from_wren x ≡ some v → raw_table v w ≡ fault
plain-ne-table Wren.null w h = ground arith
plain-ne-table (Wren.str _) w h = ground arith
plain-ne-table _ w h = ground arith

plain-length :
    ⦃R : Runtime⦄ (x : Wren) {v : Value} (w : World)
    → from_wren x ≡ some v
    → length_of v w ≡ ok (R.size_of v) w
plain-length Wren.null w h = ground arith
plain-length _ w h = ground arith

lt_ne : {m n : ℕ} → m < n → m ≢ n
lt_ne h = omega arith

module _ ⦃R : Runtime⦄ {n r a : ℕ} {w : World} (self : IsSelf share_array n r a w) where
  -- add of a null, a Boolean, a number or a text to an Array is always a fault: the raw write goes to
  -- the value itself, which is no table.
  pub avm_add-faults : (v : Value) → from_wren (w.slots 1) ≡ some v → avm_add w ≡ fault
  unfolding avm_add
  avm_add-faults v plain = rw (
    push_self-ok self,
    push_slot-plain 1 v (pushed (table a) w) plain,
    plain-length (w.slots 1) (pushed v (pushed (table a) w)) plain,
    plain-ne-table (w.slots 1) (pushed v (pushed (table a) w)) plain,
  )

module _ ⦃R : Runtime⦄ where
  -- The loop that should move the items up does not end once it has begun: its counter stands
  -- still.
  shift_loop_stuck :
      (fuel p end : ℕ) (w : World) → p < end → OnReturn (λ _. ⊥) (shift_loop fuel p end w)
  unfolding shift_loop
  shift_loop_stuck zero p end w lt = tt
  shift_loop_stuck (suc f) p end w lt = rw (ltb_of_lt p end lt) (
      OnReturn-and_then (λ _. ⊥) (lua_rawgeti 2 (pos (suc p)) w) _
        λ _ w1.
          OnReturn-and_then (λ _. ⊥) (lua_rawseti 2 (pos p) w1) _
            λ _ w2. shift_loop_stuck f p end w2 lt)

  -- removeAt of an item of a regular array that is not the last never returns, however much fuel it
  -- has and whatever lies on the stack below.
  pub avm_remove_at-no_return :
      {n r a i : ℕ} {z : ℤ} {w w' : World} {xs : List Value} (fuel : ℕ)
      → IsSelf share_array n r a w
      → IsArray (w.tables a) xs
      → IsIndex 1 (length xs) i z w
      → suc i < length xs
      → ¬ (avm_remove_at fuel w ≡ ok tt w')
  unfolding avm_remove_at remove_index
  avm_remove_at-no_return {a} {i} {w} {xs} fuel self is index lt =
      of_return (λ _. ⊥)
        (rw
          (
            push_self-ok self,
            IsArray-objlen is,
            IsIndex-int (table a ∷ w.stack) index,
            index.stands_for,
            leb_of_lt (length xs) i index.in_range,
            eq_ne (suc i) (length xs) (lt_ne lt),
          )
          (no_return-and_then ((shift_loop fuel (suc i) (length xs) >> _) (pushed (table a) w)) _ (
            no_return-and_then (shift_loop fuel (suc i) (length xs) (pushed (table a) w)) _
              (shift_loop_stuck fuel (suc i) (length xs) (pushed (table a) w) lt))))
