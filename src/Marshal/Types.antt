-- ===== src/Marshal/Types.antt =====
-- src/vm.c, wrenSetSlotFromLua and luaPushFromWrenSlot: the types on both sides.
use carrica.Base.{ℕ, String, ◌≡◌, ◌≢◌, ◌∙◌, refl, ap, Option, none, some, update, update_self}
use carrica.Lua.Value.{
  Value, LuaType, lua_type, t_nil, t_boolean, t_number, t_string, t_userdata, nil, bool, num, str,
  table, light, ref, udata, func, thread,
}
use carrica.Lua.Api.{Index, at_index, or_fault}
use carrica.Wren.Value.{Wren, WrenType, wren_type, w_null, w_bool, w_num, w_string}
use carrica.World.{World, ok, pushed, and_then}
use carrica.Marshal.Plain.{to_wren, from_wren, set_slot-at, push_slot-plain}
use carrica.Marshal.{
  wren_error, set_slot_from_value, wren_set_slot_from_lua, lua_push_from_wren_slot,
}

-- The type in Wren of the values of a type of Lua; none where such values do not pass.
abbrev pub wren_type_of : LuaType → Option WrenType
wren_type_of t_nil = some w_null
wren_type_of t_boolean = some w_bool
wren_type_of t_number = some w_num
wren_type_of t_string = some w_string
wren_type_of _ = none

-- The value v passed: the slot has the type that belongs to it, and a push of the slot gives a value of
-- the type of v. Or it did not, and the fiber has an error.
abbrev pub Passed : ℕ → Value → World → World → Option WrenType → Type 0
Passed slot v w w' (some t) =
    (wren_type (w'.slots slot) ≡ t)
    × (w'.abort ≡ w.abort)
    × (y : Value) × (lua_push_from_wren_slot slot w' ≡ ok tt (pushed y w'))
    × (lua_type y ≡ lua_type v)
Passed slot v w w' none = (message : String) × (w'.abort ≡ some (Wren.str message))

module _ (slot : ℕ) (i : Index) (w : World) where
  plain-Passed :
      (v : Value) (x : Wren)
      → at_index i w.base w.stack ≡ some v
      → to_wren v ≡ some x
      → from_wren x ≡ some v
      → (w' : World) × (wren_set_slot_from_lua slot i w ≡ ok tt w')
        × Passed slot v w w' (some (wren_type x))
  plain-Passed v x here there back =
      let w' : World = record w { slots = update w.slots slot x } in
      (
        w',
        set_slot-at slot i v x w here there,
        (
          ap wren_type (update_self w.slots slot x),
          refl,
          v,
          push_slot-plain slot v w' (ap from_wren (update_self w.slots slot x) ∙ back),
          refl,
        ),
      )

  refused :
      (v : Value) (message : String)
      → at_index i w.base w.stack ≡ some v
      → set_slot_from_value slot i v w ≡ wren_error message w
      → (w' : World) × (wren_set_slot_from_lua slot i w ≡ ok tt w') × Passed slot v w w' none
  unfolding wren_set_slot_from_lua
  refused v message here runs = (
    record w { slots = update w.slots 0 (Wren.str message); abort = some (Wren.str message) },
    ap (λ o. and_then (or_fault o w) (set_slot_from_value slot i)) here ∙ runs,
    (message, refl),
  )

  -- A value of Lua at any index, if it is no user data: the slot gets a value of the type that belongs
  -- to its type, without an error, and a push of the slot then gives a value of the type it had; or its
  -- type has no counterpart, and the fiber has an error.
  pub wren_set_slot_from_lua-type :
      (v : Value)
      → at_index i w.base w.stack ≡ some v
      → lua_type v ≢ t_userdata
      → (w' : World) × (wren_set_slot_from_lua slot i w ≡ ok tt w')
        × Passed slot v w w' (wren_type_of (lua_type v))
  wren_set_slot_from_lua-type nil here other = plain-Passed nil Wren.null here refl refl
  wren_set_slot_from_lua-type (bool b) here other =
      plain-Passed (bool b) (Wren.bool b) here refl refl
  wren_set_slot_from_lua-type (num n) here other = plain-Passed (num n) (Wren.num n) here refl refl
  wren_set_slot_from_lua-type (str s) here other = plain-Passed (str s) (Wren.str s) here refl refl
  wren_set_slot_from_lua-type (ref r) here other = absurd (other refl)
  wren_set_slot_from_lua-type (udata n) here other = absurd (other refl)
  wren_set_slot_from_lua-type (table a) here other = refused (table a) _ here refl
  wren_set_slot_from_lua-type (light l) here other = refused (light l) _ here refl
  wren_set_slot_from_lua-type (func f) here other = refused (func f) _ here refl
  wren_set_slot_from_lua-type (thread n) here other = refused (thread n) _ here refl
