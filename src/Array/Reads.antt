-- ===== src/Array/Reads.antt =====
-- The operations of src/cls_array.c that only read: what they leave in slot 0 and on the stack.
use carrica.Base.{ℕ, suc, ◌<◌, ◌^◌, ◌≡◌, refl, some, List, ◌∷◌, length, get_or, update}
use carrica.Base.Int.{pos}
use carrica.Lua.Value.{Value, nil, table, whole}
use carrica.Lua.Table.{IsArray}
use carrica.Lua.Runtime.{Runtime}
use carrica.Wren.Value.{Wren}
use carrica.World.{share_array, World, ok, pushed}
use carrica.Marshal.Plain.{to_wren, set_slot-top}
use carrica.Reference.Object.{IsSelf, push_self-ok}
use carrica.Array.Items.{IsArray-objlen}
use carrica.Array.Index.{position-pos}
use carrica.Array.Access.{avm_get, avm_count}

module _ ⦃R : Runtime⦄ {n r a : ℕ} {w : World} {xs : List Value} (self : IsSelf share_array n r a w)
    (is : IsArray (w.tables a) xs) where
  -- count of a regular array puts its length in slot 0, and changes nothing else.
  pub avm_count_lem :
      avm_count w
      ≡ ok tt (record w { slots = update w.slots 0 (Wren.num (whole (pos (length xs)))) })
  unfolding avm_count
  avm_count_lem = rw (push_self-ok self, IsArray-objlen is)

  -- Reading a regular array at an integer from 0 whose successor fits an int gives the item there in
  -- slot 0, or null past the end, if it passes by value; the stack and all else is as before.
  pub avm_get_lem :
      (i : ℕ) (x : Wren)
      → w.slots 1 ≡ Wren.num (whole (pos i))
      → suc i < 2 ^ 31
      → to_wren (get_or xs i nil) ≡ some x
      → avm_get w ≡ ok tt (record w { slots = update w.slots 0 x })
  unfolding avm_get
  avm_get_lem i x at lt plain = rw (
    push_self-ok self,
    at,
    position-pos 1 i (pushed (table a) w) at lt,
    is.item,
    set_slot-top 0 (get_or xs i nil) x (pushed (get_or xs i nil) (pushed (table a) w))
        (table a ∷ w.stack) refl plain,
  )
