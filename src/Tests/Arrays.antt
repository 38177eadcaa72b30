-- ===== src/Tests/Arrays.antt =====
-- The theorems on Arrays at the Array [10, 20, 30].
use carrica.Base.{List, ◌++◌, ℕ, zero, suc, ◌<◌, ◌≡◌, refl, false, [], ◌∷◌, get_or, update, arith}
use carrica.Base.Int.{pos, negsuc}
use carrica.Lua.Value.{Value, nil, is_nil, whole}
use carrica.Lua.Table.{IsArray, lookup, int_key}
use carrica.Wren.Value.{Wren}
use carrica.World.{World, ok, fault, share_array}
use carrica.Reference.Object.{IsSelf, IsObject}
use carrica.Array.Index.{IsIndex}
use carrica.Array.Items.{OnlyTable}
use carrica.Array.Access.{avm_set, avm_swap, avm_iterate}
use carrica.Array.Build.{avm_add_all, avm_add}
use carrica.Array.Edit.{avm_insert, avm_remove_at, avm_index_of, index_loop}
use carrica.Reference.{push_self}
use carrica.Marshal.{lua_push_from_wren_slot}
use carrica.Array.Writes.{avm_set-replaces, avm_swap_lem, avm_insert-replaces_last}
use carrica.Array.Appends.{Appends}
use carrica.Array.Build.{avm_list}
use carrica.Array.Listing.{avm_add_all-avm_list}
use carrica.Array.Joins.{avm_add_all-IsArray}
use carrica.Array.Iteration.{avm_iterate-next}
use carrica.Array.Faults.{avm_add-faults, avm_remove_at-no_return}
use carrica.Array.Searching.{avm_index_of-found_in}
use carrica.Tests.Instance.{runtime}
use carrica.Tests.Setup.{int, wren_int, first_items, second_items, world, args}

-- The receiver is the first Array, the arguments are x and y.
abbrev call : Wren → Wren → World
call x y = world (args (Wren.foreign 0) x y)

call-IsSelf : (x y : Wren) → IsSelf share_array 0 0 1 (call x y)
call-IsSelf x y = record {
  slot = refl;
  object = record { kind = refl; pref = refl; registered = refl };
}

first-item :
    (i : ℕ)
    → lookup (int_key (suc i)) ((call Wren.null Wren.null).tables 1) ≡ get_or first_items i nil
first-item zero = refl
first-item (suc zero) = refl
first-item (suc (suc zero)) = refl
first-item (suc (suc (suc i))) = ground arith

first-no_nil : (i : ℕ) → i < 3 → is_nil (get_or first_items i nil) ≡ false
first-no_nil zero h = refl
first-no_nil (suc zero) h = refl
first-no_nil (suc (suc zero)) h = refl
first-no_nil (suc (suc (suc i))) h = absurd (omega arith)

first-IsArray : (x y : Wren) → IsArray ((call x y).tables 1) first_items
first-IsArray x y = record { item = first-item; no_nil = first-no_nil }

second-item :
    (i : ℕ)
    → lookup (int_key (suc i)) ((call Wren.null Wren.null).tables 2) ≡ get_or second_items i nil
second-item zero = refl
second-item (suc i) = ground arith

second-no_nil : (i : ℕ) → i < 1 → is_nil (get_or second_items i nil) ≡ false
second-no_nil zero h = refl
second-no_nil (suc i) h = absurd (omega arith)

pub second-IsArray : (x y : Wren) → IsArray ((call x y).tables 2) second_items
second-IsArray x y = record { item = second-item; no_nil = second-no_nil }

second-IsObject : (x y : Wren) → IsObject share_array 1 1 2 (call x y)
second-IsObject x y = record { kind = refl; pref = refl; registered = refl }

first-IsIndex : (i : ℕ) (x y : Wren) → i < 3 → IsIndex 1 3 i (pos i) (call (wren_int i) y)
first-IsIndex i x y lt = record {
  slot = refl;
  fits = ground arith;
  stands_for = refl;
  in_range = lt;
}

from_last-IsIndex : IsIndex 1 3 2 (negsuc 0) (call (Wren.num (whole (negsuc 0))) (wren_int 7))
from_last-IsIndex = record { slot = refl; fits = refl; stands_for = refl; in_range = omega arith }

avm_swap_example :
    (w' : World) × (avm_swap (call (Wren.num (whole (negsuc 0))) (wren_int 0)) ≡ ok tt w')
    × IsArray (w'.tables 1) (int 30 ∷ int 20 ∷ int 10 ∷ [])
    × OnlyTable 1 (call (Wren.num (whole (negsuc 0))) (wren_int 0)) w'
avm_swap_example =
    avm_swap_lem (call-IsSelf (Wren.num (whole (negsuc 0))) (wren_int 0))
      (first-IsArray (Wren.num (whole (negsuc 0))) (wren_int 0))
      (record { slot = refl; fits = refl; stands_for = refl; in_range = omega arith })
      (record { slot = refl; fits = refl; stands_for = refl; in_range = omega arith })

avm_add_all-IsArray_example :
    (w' : World) × (avm_add_all (call (Wren.foreign 1) Wren.null) ≡ ok tt w')
    × IsArray (w'.tables 1) (int 10 ∷ int 20 ∷ int 30 ∷ int 40 ∷ [])
    × OnlyTable 1 (call (Wren.foreign 1) Wren.null) w'
    × (w'.slots ≡ (call (Wren.foreign 1) Wren.null).slots)
avm_add_all-IsArray_example =
    avm_add_all-IsArray (call-IsSelf (Wren.foreign 1) Wren.null)
      (first-IsArray (Wren.foreign 1) Wren.null) refl (second-IsObject (Wren.foreign 1) Wren.null)
      (second-IsArray (Wren.foreign 1) Wren.null)

avm_set_example :
    (w' : World) × (avm_set (call (wren_int 1) (wren_int 7)) ≡ ok tt w')
    × IsArray (w'.tables 1) (int 10 ∷ int 7 ∷ int 30 ∷ [])
    × OnlyTable 1 (call (wren_int 1) (wren_int 7)) w'
avm_set_example =
    avm_set-replaces (call-IsSelf (wren_int 1) (wren_int 7))
      (first-IsArray (wren_int 1) (wren_int 7)) 1 (int 7) refl (omega arith) (omega arith) refl refl

avm_remove_at-no_return_example :
    ¬ (avm_remove_at 1000 (call (wren_int 0) Wren.null) ≡ ok tt (call Wren.null Wren.null))
avm_remove_at-no_return_example =
    avm_remove_at-no_return 1000 (call-IsSelf (wren_int 0) Wren.null)
      (first-IsArray (wren_int 0) Wren.null) (first-IsIndex 0 Wren.null Wren.null (omega arith))
      (omega arith)

avm_insert-replaces_last_example :
    (w' : World) × (avm_insert (call (Wren.num (whole (negsuc 0))) (wren_int 7)) ≡ ok tt w')
    × IsArray (w'.tables 1) (int 10 ∷ int 20 ∷ int 7 ∷ [])
    × OnlyTable 1 (call (Wren.num (whole (negsuc 0))) (wren_int 7)) w'
avm_insert-replaces_last_example =
    avm_insert-replaces_last (call-IsSelf (Wren.num (whole (negsuc 0))) (wren_int 7))
      (first-IsArray (Wren.num (whole (negsuc 0))) (wren_int 7)) (int 7) from_last-IsIndex refl refl
      refl

avm_iterate-next_example :
    avm_iterate (call (wren_int 2) Wren.null)
    ≡ ok tt (record (call (wren_int 2) Wren.null) {
      slots = update (call (wren_int 2) Wren.null).slots 0 (wren_int 3);
    })
avm_iterate-next_example =
    avm_iterate-next (call-IsSelf (wren_int 2) Wren.null) (first-IsArray (wren_int 2) Wren.null) 2
      refl (omega arith) (omega arith)

avm_add-faults_example : avm_add (call (wren_int 4) Wren.null) ≡ fault
avm_add-faults_example = avm_add-faults (call-IsSelf (wren_int 4) Wren.null) (int 4) refl

-- The world after a search for an item that is not there.
abbrev not_found : World
not_found = record (call (wren_int 99) Wren.null) {
  slots = update (call (wren_int 99) Wren.null).slots 0 (Wren.num (whole (negsuc 0)));
}

search-not_found : avm_index_of 10 (call (wren_int 99) Wren.null) ≡ ok tt not_found
unfolding avm_index_of index_loop push_self lua_push_from_wren_slot
search-not_found = refl

avm_index_of-found_in_example : avm_index_of 4 (call (wren_int 20) Wren.null) ≡ fault
avm_index_of-found_in_example =
    avm_index_of-found_in (call-IsSelf (wren_int 20) Wren.null)
      (first-IsArray (wren_int 20) Wren.null) (int 20) 4 refl tt (omega arith)

avm_add_all-avm_list_example :
    (l : ℕ) × (w' : World) × (avm_list (call Wren.null Wren.null) ≡ ok tt w')
    × (w'.slots 0 ≡ Wren.list l)
    × ((m q b : ℕ) (ys : List Value) (u : World)
        → IsSelf share_array m q b u
        → IsArray (u.tables b) ys
        → u.slots 1 ≡ Wren.list l
        → u.lists l ≡ w'.lists l
        → (u' : World) × (avm_add_all u ≡ ok tt u') × Appends b (ys ++ first_items) u u')
avm_add_all-avm_list_example =
    avm_add_all-avm_list (wren_int 10 ∷ wren_int 20 ∷ wren_int 30 ∷ [])
      (call-IsSelf Wren.null Wren.null) (first-IsArray Wren.null Wren.null)
      (refl, (refl, (refl, tt)))
