-- ===== src/Array/Iteration.antt =====
-- The iterator protocol of src/cls_array.c: avmIterate and avmIteratorValue.
use carrica.Base.{
  ℕ, suc, ◌<◌, ◌≤◌, ◌^◌, ◌≡◌, refl, false, some, List, ◌∷◌, length, get_or, update, arith,
  leb_of_lt, leb_of_le,
}
use carrica.Base.Int.{pos}
use carrica.Lua.Value.{Value, nil, table, whole}
use carrica.Lua.Table.{IsArray}
use carrica.Lua.Runtime.{Runtime}
use carrica.Wren.Value.{Wren}
use carrica.World.{share_array, World, ok, pushed}
use carrica.Marshal.Plain.{to_wren, set_slot-top}
use carrica.Reference.Object.{IsSelf, push_self-ok}
use carrica.Array.Items.{IsArray-objlen}
use carrica.Array.Index.{position-pos, in_int-pos, succ-pos}
use carrica.Array.Access.{avm_iterate, avm_iterator_value}

module _ ⦃R : Runtime⦄ {n r a : ℕ} {w : World} {xs : List Value} (self : IsSelf share_array n r a w)
    (is : IsArray (w.tables a) xs) where
  -- The iterator after the index i of an item of a regular array, shorter than 2 ^ 31, is i + 1: also
  -- after the last item, where Wren then asks for a value past the end. The stack is as before.
  pub avm_iterate-next :
      (i : ℕ)
      → w.slots 1 ≡ Wren.num (whole (pos i))
      → i < length xs
      → length xs < 2 ^ 31
      → avm_iterate w
        ≡ ok tt (record w { slots = update w.slots 0 (Wren.num (whole (pos (suc i)))) })
  unfolding avm_iterate
  avm_iterate-next i at lt small = rw (
    self.slot,
    at,
    at,
    in_int-pos i (omega arith),
    push_self-ok self,
    IsArray-objlen is,
    leb_of_lt (length xs) i lt,
    succ-pos i,
    in_int-pos (suc i) (omega arith),
  )

  -- At an iterator past the last item of a regular array, an int, the answer is false, and the value
  -- that was on top of the stack before the call is lost.
  pub avm_iterate-end :
      (i : ℕ) (v : Value) (st : List Value)
      → w.slots 1 ≡ Wren.num (whole (pos i))
      → length xs ≤ i
      → i < 2 ^ 31
      → w.stack ≡ v ∷ st
      → avm_iterate w ≡ ok tt (record w { stack = st; slots = update w.slots 0 (Wren.bool false) })
  unfolding avm_iterate
  avm_iterate-end i v st at le small below = rw (
    self.slot,
    at,
    at,
    in_int-pos i small,
    push_self-ok self,
    IsArray-objlen is,
    leb_of_le (length xs) i le,
    below,
  )

  -- The value at an iterator from 0 whose successor fits an int is the item of the regular array
  -- there, or null past the end, if it passes by value; all but slot 0 is as before.
  pub avm_iterator_value_lem :
      (i : ℕ) (x : Wren)
      → w.slots 1 ≡ Wren.num (whole (pos i))
      → suc i < 2 ^ 31
      → to_wren (get_or xs i nil) ≡ some x
      → avm_iterator_value w ≡ ok tt (record w { slots = update w.slots 0 x })
  unfolding avm_iterator_value
  avm_iterator_value_lem i x at lt plain = rw (
    push_self-ok self,
    position-pos 1 i (pushed (table a) w) at lt,
    is.item,
    set_slot-top 0 (get_or xs i nil) x (pushed (get_or xs i nil) (pushed (table a) w))
        (table a ∷ w.stack) refl plain,
  )
