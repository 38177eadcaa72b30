-- ===== src/Marshal/Safety.antt =====
-- src/vm.c: wrenSlotIsLuaSafe against luaPushFromWrenSlot.
use carrica.Base.{ℕ, ◌≡◌, refl, Bool, true, false, Option, none, some}
use carrica.Wren.Value.{Wren}
use carrica.World.{
  Share, share_array, share_table, share_lsobj, share_table_entry, World, Run, ok, raised, fault,
  out_of_fuel,
}
use carrica.Lua.Api.{T}
use carrica.Marshal.{
  wren_slot_is_lua_safe, lua_push_from_wren_slot, value_is_safe, push_from_wren, reref_is_safe,
  push_reref, push_pref,
}

abbrev pub returns : Run T → Bool
returns (ok a w) = true
returns (raised e w) = false
returns fault = false
returns out_of_fuel = false

pref-returns : (p : Option ℕ) (w : World) → returns (push_pref p w) ≡ true
pref-returns none w = refl
pref-returns (some r) w = refl

reref_is_safe-returns :
    (k : Share) (p : Option ℕ) (w : World)
    → reref_is_safe (record { kind = k; pref = p })
      ≡ returns (push_reref (record { kind = k; pref = p }) w)
reref_is_safe-returns share_array p w = rw (pref-returns p w)
reref_is_safe-returns share_table p w = rw (pref-returns p w)
reref_is_safe-returns share_lsobj p w = rw (pref-returns p w)
reref_is_safe-returns share_table_entry p w = refl

value_is_safe-returns : (v : Wren) (w : World) → value_is_safe v w ≡ returns (push_from_wren v w)
value_is_safe-returns Wren.null w = refl
value_is_safe-returns (Wren.bool b) w = refl
value_is_safe-returns (Wren.num n) w = refl
value_is_safe-returns (Wren.str s) w = refl
value_is_safe-returns (Wren.list n) w = refl
value_is_safe-returns (Wren.map n) w = refl
value_is_safe-returns (Wren.foreign n) w =
    reref_is_safe-returns (w.rerefs n).kind (w.rerefs n).pref w
value_is_safe-returns (Wren.unknown n) w = refl

-- The test of a slot changes nothing and says exactly whether the push of that slot onto the stack
-- returns.
pub wren_slot_is_lua_safe-lua_push_from_wren_slot :
    (slot : ℕ) (w : World)
    → wren_slot_is_lua_safe slot w ≡ ok (returns (lua_push_from_wren_slot slot w)) w
unfolding wren_slot_is_lua_safe lua_push_from_wren_slot
wren_slot_is_lua_safe-lua_push_from_wren_slot slot w = rw (value_is_safe-returns (w.slots slot) w)
