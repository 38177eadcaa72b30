-- ===== src/Array/Writes.antt =====
-- The operations of src/cls_array.c that write one or two items.
use carrica.Base.{
  ℕ, suc, ◌<◌, ◌≤◌, ◌^◌, ◌≡◌, false, some, List, ◌∷◌, length, get_or, set, update, update_self,
  eq_self, leb_of_lt, leb_of_le, true, take, update-update,
}
use carrica.Base.Int.{ℤ, pos, in_int}
use carrica.Lua.Value.{Value, nil, table, whole, is_nil}
use carrica.Lua.Table.{int_key, IsArray}
use carrica.Lua.Runtime.{Runtime}
use carrica.Wren.Value.{Wren}
use carrica.World.{share_array, World, ok, pushed}
use carrica.Marshal.Plain.{from_wren, push_slot-plain}
use carrica.Reference.Object.{IsSelf, push_self-ok}
use carrica.Array.Index.{IsIndex, IsIndex-int, position-pos, slot_int-ok}
use carrica.Array.Items.{
  IsArray-objlen, IsArray-set, IsArray-take, OnlyTable, only_table, length-set,
}
use carrica.Array.Access.{from_end, avm_set, avm_swap}
use carrica.Array.Edit.{avm_insert, avm_remove_at, remove_index}

module _ ⦃R : Runtime⦄ {n r a : ℕ} {w : World} {xs : List Value} (self : IsSelf share_array n r a w)
    (is : IsArray (w.tables a) xs) where
  avm_set_run :
      (i : ℕ) (v : Value)
      → w.slots 1 ≡ Wren.num (whole (pos i))
      → suc i < 2 ^ 31
      → from_wren (w.slots 2) ≡ some v
      → avm_set w
        ≡ ok tt
            (record w { tables = update w.tables a (R.raw_set (w.tables a) (int_key (suc i)) v) })
  unfolding avm_set
  avm_set_run i v at lt plain = rw (
    push_self-ok self,
    at,
    position-pos 1 i (pushed (table a) w) at lt,
    push_slot-plain 2 v (pushed (int_key (suc i)) (pushed (table a) w)) plain,
  )

  swap_run :
      {i j : ℕ} {y z : ℤ}
      → IsIndex 1 (length xs) i y w
      → IsIndex 2 (length xs) j z w
      → avm_swap w
        ≡ ok tt (record w {
          tables = update w.tables a (
              R.raw_set
                (R.raw_set (w.tables a) (int_key (suc i)) (get_or xs j nil))
                (int_key (suc j))
                (get_or xs i nil));
        })
  unfolding avm_swap
  swap_run {i} {j} first second = rw (
    push_self-ok self,
    IsArray-objlen is,
    IsIndex-int (table a ∷ w.stack) first,
    IsIndex-int (table a ∷ w.stack) second,
    first.stands_for,
    second.stands_for,
    leb_of_lt (length xs) i first.in_range,
    leb_of_lt (length xs) j second.in_range,
    is.item,
    is.item,
    eq_self a,
    update-update,
  )

  -- Writing a value that is passed by value and is not null at an index of a regular array, an
  -- integer from 0 whose successor fits an int, replaces that item. The stack, the other tables and
  -- the registry are as before.
  pub avm_set-replaces :
      (i : ℕ) (v : Value)
      → w.slots 1 ≡ Wren.num (whole (pos i))
      → i < length xs
      → suc i < 2 ^ 31
      → from_wren (w.slots 2) ≡ some v
      → is_nil v ≡ false
      → (w' : World) × (avm_set w ≡ ok tt w')
        × IsArray (w'.tables a) (set xs i v)
        × OnlyTable a w w'
  avm_set-replaces i v at lt small plain nn = (
    record w { tables = update w.tables a (R.raw_set (w.tables a) (int_key (suc i)) v) },
    avm_set_run i v at small plain,
    rw (update_self w.tables a) (IsArray-set i v is lt nn),
    only_table w a _,
  )

  -- swap at two indices in range of a regular array, where a negative one counts from the end,
  -- exchanges the two items. The stack, the other tables and the registry are as before.
  pub avm_swap_lem :
      {i j : ℕ} {y z : ℤ}
      → IsIndex 1 (length xs) i y w
      → IsIndex 2 (length xs) j z w
      → (w' : World) × (avm_swap w ≡ ok tt w')
        × IsArray (w'.tables a) (set (set xs i (get_or xs j nil)) j (get_or xs i nil))
        × OnlyTable a w w'
  avm_swap_lem {i} {j} first second = (
    record w { tables = update w.tables a _ },
    swap_run first second,
    rw (update_self w.tables a) (
        IsArray-set j (get_or xs i nil)
          (IsArray-set i (get_or xs j nil) is first.in_range (is.no_nil j second.in_range))
          (rw (length-set xs i (get_or xs j nil)) second.in_range) (is.no_nil i first.in_range)),
    only_table w a _,
  )

  -- insert at the last index of a regular array, of a value that is passed by value and is not null,
  -- does not insert: the value takes the place of the last item, and the length stays.
  pub avm_insert-replaces_last :
      {i : ℕ} {z : ℤ} (v : Value)
      → IsIndex 1 (length xs) i z w
      → suc i ≡ length xs
      → from_wren (w.slots 2) ≡ some v
      → is_nil v ≡ false
      → (w' : World) × (avm_insert w ≡ ok tt w')
        × IsArray (w'.tables a) (set xs i v)
        × OnlyTable a w w'
  unfolding avm_insert
  avm_insert-replaces_last {i} v index last plain nn = (
    record w { tables = update w.tables a (R.raw_set (w.tables a) (int_key (suc i)) v) },
    rw (
      push_self-ok self,
      IsArray-objlen is,
      IsIndex-int (table a ∷ w.stack) index,
      index.stands_for,
      leb_of_lt (length xs) i index.in_range,
      last,
      eq_self (length xs),
      push_slot-plain 2 v (pushed (table a) w) plain,
    ),
    rw (update_self w.tables a) (IsArray-set i v is index.in_range nn),
    only_table w a _,
  )

  -- insert in a regular array refuses every index from the length on with an error: it writes
  -- nothing to the tables, the message is in slot 0 and aborts the fiber.
  pub avm_insert-out_of_bounds :
      {i : ℕ} {z : ℤ}
      → w.slots 1 ≡ Wren.num (whole z)
      → in_int z ≡ true
      → from_end (length xs) z ≡ pos i
      → length xs ≤ i
      → avm_insert w
        ≡ ok tt (record w {
          slots = update w.slots 0 (Wren.str "index out of bounds on Array.insert()");
          abort = some (Wren.str "index out of bounds on Array.insert()");
        })
  unfolding avm_insert
  avm_insert-out_of_bounds {i} {z} slot fits stands le = rw (
    push_self-ok self,
    IsArray-objlen is,
    slot_int-ok 1 z (pushed (table a) w) slot fits,
    stands,
    leb_of_le (length xs) i le,
  )

  -- removeAt of the last item of a regular array takes that item off. The stack, the other tables
  -- and the registry are as before.
  pub avm_remove_at-last :
      {i : ℕ} {z : ℤ} (fuel : ℕ)
      → IsIndex 1 (length xs) i z w
      → suc i ≡ length xs
      → (w' : World) × (avm_remove_at fuel w ≡ ok tt w')
        × IsArray (w'.tables a) (take i xs)
        × OnlyTable a w w'
  unfolding avm_remove_at remove_index
  avm_remove_at-last {i} fuel index last = (
    record w { tables = update w.tables a (R.raw_set (w.tables a) (int_key (length xs)) nil) },
    rw (
      push_self-ok self,
      IsArray-objlen is,
      IsIndex-int (table a ∷ w.stack) index,
      index.stands_for,
      leb_of_lt (length xs) i index.in_range,
      last,
      eq_self (length xs),
    ),
    rw (update_self w.tables a, ← last) (IsArray-take i is last),
    only_table w a _,
  )
