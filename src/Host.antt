-- ===== src/Host.antt =====
-- The class Host, src/cls_host.c: calls from Wren of Lua functions, by references into the table of
-- handlers that the registry has under the address of the VM.
pub mod Calls
pub mod Refs
use carrica.Base.{
  ℕ, zero, String, Bool, true, false, Option, none, some, List, [], ◌∷◌, length, if◌then◌else◌,
}
use carrica.Base.Int.{ℤ, pos, negsuc}
use carrica.Lua.Value.{
  Value, Light, LuaType, lua_type, t_function, t_nil, nil, str, table, func, whole,
}
use carrica.Lua.Runtime.{Runtime}
use carrica.Lua.Api.{
  T, lua_push, lua_pop, lua_index, lua_pushlightuserdata, lua_gettable_registry, lua_getfield,
  lua_rawgeti, lua_call, lual_ref, Index, top, int_value,
}
use carrica.Wren.Value.{Wren, w_num, w_string}
use carrica.Wren.Api.{wren_set_slot, wren_get_slot_type, wren_get_slot_string, wren_get_slot_int}
use carrica.World.{World, ok, Cmd, pure, ◌>>=◌, ◌>>◌}
use carrica.Marshal.{vm_is_valid, wren_error, wren_set_slot_from_lua, lua_push_from_wren_slot}

-- CARRICA_NAME
abbrev pub carrica_name : String
carrica_name = "carrica 0.1.0 Tenma"

abbrev name_or_default : Option String → String
name_or_default none = carrica_name
name_or_default (some name) = name

unfoldable pub hvm_name : Cmd T
hvm_name = do
  valid ← vm_is_valid
  if valid
      then (λ w. wren_set_slot 0 (Wren.str (name_or_default w.cvm.wren_name)) w)
      else wren_error "Host.name called on an invalid VM instance"

-- lua_type(cvm->L, -1)
abbrev pub top_type : Cmd LuaType
top_type = lua_index 1 >>= λ v. pure (lua_type v)

abbrev set_number : ℤ → Cmd T
set_number z = wren_set_slot 0 (Wren.num (whole z))

-- The handlers of the VM, and its constants: registry tables under `cvm` and under `cvm->name`.
abbrev pub push_handlers : Cmd T
push_handlers = (λ w. lua_pushlightuserdata (Light.cvm w.cvm.address) w) >> lua_gettable_registry

abbrev push_constants : Cmd T
push_constants = (λ w. lua_pushlightuserdata (Light.cvm_name w.cvm.name) w) >> lua_gettable_registry

-- luaPushFromWrenSlot for each slot in turn
unfoldable pub push_slots : List ℕ → Cmd T
push_slots [] = pure tt
push_slots (s ∷ ss) = lua_push_from_wren_slot s >> push_slots ss

module _ ⦃R : Runtime⦄ where
  -- The reference is made to the name that is pushed above the constant, not to the constant.
  const_found : LuaType → String → Cmd T
  const_found t_nil name = set_number (negsuc 0) >> lua_pop 2
  const_found _ name = do lua_push (str name); r ← lual_ref 3; set_number r; lua_pop 1

  unfoldable pub hvm_const : Cmd T
  unfolding const_found
  hvm_const = do
    valid ← vm_is_valid
    if valid
        then (do
          kind ← wren_get_slot_type 1
          elim kind [
            | w_string ↦ do
              name ← wren_get_slot_string 1
              push_constants
              lua_getfield 1 name
              t ← top_type
              const_found t name
            | _ ↦ wren_error "Host.const() called with bad parameter, string expected"
          ])
        else wren_error "Host.const() called on an invalid VM instance"

  ref_found : LuaType → Cmd T
  ref_found t_function = do r ← lual_ref 2; set_number r; lua_pop 1
  ref_found _ = set_number (negsuc 0) >> lua_pop 2

  unfoldable pub hvm_ref : Cmd T
  unfolding ref_found
  hvm_ref = do
    valid ← vm_is_valid
    if valid
        then (do
          kind ← wren_get_slot_type 1
          elim kind [
            | w_string ↦ do
              name ← wren_get_slot_string 1
              push_handlers
              lua_getfield 1 name
              t ← top_type
              ref_found t
            | _ ↦ wren_error "Host.ref() called with bad parameter, string expected"
          ])
        else wren_error "Host.ref() called on an invalid VM instance"

  call_found : List ℕ → LuaType → Cmd T
  call_found args t_function = do
    push_slots args
    v ← lua_call (length args)
    lua_push v
    wren_set_slot_from_lua 0 (top 1)
    lua_pop 2
  call_found args _ = lua_pop 2 >> wren_error "Host.call() failed, no handler could be found"

  call_ref : List ℕ → ℤ → Cmd T
  unfolding call_found
  call_ref args (negsuc zero) =
      wren_error "Host.call() called with bad parameter, reference passed is invalid"
  call_ref args r = do push_handlers; lua_rawgeti 1 r; t ← top_type; call_found args t

  -- The text that hvmCall0 to hvmCall8 share, with the slots of the arguments.
  unfoldable pub hvm_call : List ℕ → Cmd T
  unfolding call_ref
  hvm_call args = do
    valid ← vm_is_valid
    if valid
        then (do
          kind ← wren_get_slot_type 1
          elim kind [
            | w_num ↦ do r ← wren_get_slot_int 1; call_ref args r
            | _ ↦
                wren_error
                  "Host.call() called with bad parameter, number reference expected as first param"
          ])
        else wren_error "Host.call() called on an invalid VM instance"

  abbrev pub hvm_call0 : Cmd T
  hvm_call0 = hvm_call []

  abbrev pub hvm_call1 : Cmd T
  hvm_call1 = hvm_call (2 ∷ [])

  abbrev pub hvm_call2 : Cmd T
  hvm_call2 = hvm_call (2 ∷ 3 ∷ [])

  abbrev pub hvm_call3 : Cmd T
  hvm_call3 = hvm_call (2 ∷ 3 ∷ 4 ∷ [])

  abbrev pub hvm_call4 : Cmd T
  hvm_call4 = hvm_call (2 ∷ 3 ∷ 4 ∷ 5 ∷ [])

  abbrev pub hvm_call5 : Cmd T
  hvm_call5 = hvm_call (2 ∷ 3 ∷ 4 ∷ 5 ∷ 6 ∷ [])

  abbrev pub hvm_call6 : Cmd T
  hvm_call6 = hvm_call (2 ∷ 3 ∷ 4 ∷ 5 ∷ 6 ∷ 7 ∷ [])

  abbrev pub hvm_call7 : Cmd T
  hvm_call7 = hvm_call (2 ∷ 3 ∷ 4 ∷ 5 ∷ 6 ∷ 7 ∷ 8 ∷ [])

  abbrev pub hvm_call8 : Cmd T
  hvm_call8 = hvm_call (2 ∷ 3 ∷ 4 ∷ 5 ∷ 6 ∷ 7 ∷ 8 ∷ 9 ∷ [])
