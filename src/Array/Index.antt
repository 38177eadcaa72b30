-- ===== src/Array/Index.antt =====
-- The index arguments of src/cls_array.c, from a double in a slot to a position.
use carrica.Base.{ℕ, suc, ◌<◌, ◌^◌, ◌≡◌, true, List, arith}
use carrica.Base.Int.{ℤ, pos, in_int, ◌+ℤ◌}
use carrica.Lua.Value.{Value, whole}
use carrica.Wren.Value.{Wren}
use carrica.Wren.Api.{wren_get_slot_int}
use carrica.World.{World, ok}
use carrica.Array.Access.{lua_position, from_end}

pub slot_int-ok :
    (k : ℕ) (z : ℤ) (w : World)
    → w.slots k ≡ Wren.num (whole z)
    → in_int z ≡ true
    → wren_get_slot_int k w ≡ ok z w
slot_int-ok k z w e fits = rw (e, fits)

-- The double in slot k is an int that stands for the index i of a list of the given length; a
-- negative one counts from the end.
pub record IsIndex (k len i : ℕ) (z : ℤ) (w : World) : Type 0 where
  pub slot : w.slots k ≡ Wren.num (whole z)
  pub fits : in_int z ≡ true
  pub stands_for : from_end len z ≡ pos i
  pub in_range : i < len

pub IsIndex-int :
    {k len i : ℕ} {z : ℤ} {w : World} (st : List Value)
    → IsIndex k len i z w
    → wren_get_slot_int k (record w { stack = st }) ≡ ok z (record w { stack = st })
IsIndex-int {k} {z} {w} st h = slot_int-ok k z (record w { stack = st }) h.slot h.fits

pub position-pos :
    (k i : ℕ) (w : World)
    → w.slots k ≡ Wren.num (whole (pos i))
    → suc i < 2 ^ 31
    → lua_position k w ≡ ok (pos (suc i)) w
unfolding lua_position
position-pos k i w e lt = rw e (ground arith)

pub in_int-pos : (i : ℕ) → i < 2 ^ 31 → in_int (pos i) ≡ true
in_int-pos i lt = ground arith

pub succ-pos : (i : ℕ) → pos i +ℤ pos 1 ≡ pos (suc i)
succ-pos i = ground arith
