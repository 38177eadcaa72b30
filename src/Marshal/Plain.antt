-- ===== src/Marshal/Plain.antt =====
-- src/vm.c, wrenSetSlotFromLua and luaPushFromWrenSlot at the values that both languages have: nil,
-- Booleans, numbers and text.
use carrica.Base.{ℕ, ◌≡◌, ◌∙◌, ap, Option, none, some, List, [], ◌∷◌, update, arith}
use carrica.Lua.Value.{Value, nil, bool, num, str}
use carrica.Lua.Api.{top, Index, at_index, or_fault}
use carrica.Wren.Value.{Wren}
use carrica.World.{World, ok, and_then}
use carrica.Marshal.{set_slot_from_value, wren_set_slot_from_lua, lua_push_from_wren_slot}

-- The Wren value of a Lua value that passes by value.
abbrev pub to_wren : Value → Option Wren
to_wren nil = some Wren.null
to_wren (bool b) = some (Wren.bool b)
to_wren (num n) = some (Wren.num n)
to_wren (str s) = some (Wren.str s)
to_wren _ = none

-- Each Lua value passes as the Wren value at its place.
abbrev pub AllPlain : List Value → List Wren → Type 0
AllPlain [] [] = Unit
AllPlain (v ∷ vs) (x ∷ xs) = (to_wren v ≡ some x) × AllPlain vs xs
AllPlain _ _ = ⊥

-- The Lua value of a Wren value that passes by value.
abbrev pub from_wren : Wren → Option Value
from_wren Wren.null = some nil
from_wren (Wren.bool b) = some (bool b)
from_wren (Wren.num n) = some (num n)
from_wren (Wren.str s) = some (str s)
from_wren _ = none

pub set_slot-top :
    (slot : ℕ) (v : Value) (x : Wren) (w : World) (st : List Value)
    → w.stack ≡ v ∷ st
    → to_wren v ≡ some x
    → wren_set_slot_from_lua slot (top 1) w ≡ ok tt (record w { slots = update w.slots slot x })
unfolding wren_set_slot_from_lua
set_slot-top slot v x w st e p = ground arith

pub push_slot-plain :
    (slot : ℕ) (v : Value) (w : World)
    → from_wren (w.slots slot) ≡ some v
    → lua_push_from_wren_slot slot w ≡ ok tt (record w { stack = v ∷ w.stack })
unfolding lua_push_from_wren_slot
push_slot-plain slot v w p = ground arith

set_slot_from_value-plain :
    (slot : ℕ) (i : Index) (v : Value) (x : Wren) (w : World)
    → to_wren v ≡ some x
    → set_slot_from_value slot i v w ≡ ok tt (record w { slots = update w.slots slot x })
set_slot_from_value-plain slot i v x w p = ground arith

-- The same at any index of the stack.
pub set_slot-at :
    (slot : ℕ) (i : Index) (v : Value) (x : Wren) (w : World)
    → at_index i w.base w.stack ≡ some v
    → to_wren v ≡ some x
    → wren_set_slot_from_lua slot i w ≡ ok tt (record w { slots = update w.slots slot x })
unfolding wren_set_slot_from_lua
set_slot-at slot i v x w here p =
    ap (λ o. and_then (or_fault o w) (set_slot_from_value slot i)) here
    ∙ set_slot_from_value-plain slot i v x w p
