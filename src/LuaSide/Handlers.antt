-- ===== src/LuaSide/Handlers.antt =====
-- src/carrica.c: lcvmHandler, which installs Lua functions for the Host class and for the output of a
-- VM in the registry table of the VM.
pub mod Installing
use carrica.Base.{ℕ, zero, suc, String, Bool, true, false, ◌&&◌, ◌-◌, if◌then◌else◌}
use carrica.Lua.Value.{
  Value, LuaType, lua_type, t_table, t_string, t_function, nil, str, func, table, is_key,
}
use carrica.Lua.Table.{next}
use carrica.Lua.Runtime.{Runtime}
use carrica.Lua.Api.{
  T, Index, arg, lua_at, lua_index, lua_take, lua_push, lua_pushvalue, lua_pop, lua_next,
  lua_settable, raw_table, indexed_table, push_next, raw_assign,
}
use carrica.Lua.Args.{lual_checkvm, arg_is, push_arg, lua_arg, lua_gettop, lua_settop}
use carrica.Marshal.{vm_is_valid}
use carrica.Host.{push_handlers}
use carrica.World.{World, ok, raised, fault, out_of_fuel, Cmd, pure, lual_error, ◌>>=◌, ◌>>◌}

abbrev pub is_string_value : Value → Bool
is_string_value (str s) = true
is_string_value _ = false

abbrev pub is_function_value : Value → Bool
is_function_value (func f) = true
is_function_value _ = false

abbrev pub is_table_argument : Value → Bool
is_table_argument (table a) = true
is_table_argument _ = false

-- lua_next at an argument
abbrev pub lua_next_arg : ℕ → Cmd Bool
lua_next_arg i = do
  a ← lua_at (arg i) >>= raw_table
  key ← lua_take
  λ w. push_next (next key (w.tables a)) w

module _ ⦃R : Runtime⦄ where
  -- lua_settable at a position counted from the base of the frame
  abbrev pub lua_settable_arg : ℕ → Cmd T
  lua_settable_arg i = do
    a ← lua_at (arg i) >>= indexed_table
    v ← lua_take
    key ← lua_take
    if is_key key then raw_assign a key v else λ w. raised "table index is nil or NaN" w

  -- A text that points to a function goes to the table at t.
  abbrev pub install_entry : ℕ → Bool → Cmd T
  install_entry t true = do lua_pushvalue 2; lua_pushvalue 2; lua_settable_arg t
  install_entry t false = pure tt

  unfoldable pub handler_loop : (fuel t : ℕ) → Cmd T
  handler_loop zero t = λ w. out_of_fuel
  handler_loop (suc f) t = do
    more ← lua_next_arg 2
    if more
        then (do
          k ← lua_index 2
          v ← lua_index 1
          install_entry t (is_string_value k && is_function_value v)
          lua_pop 1
          handler_loop f t)
        else pure tt

  abbrev pub handler_table : ℕ → Cmd ℕ
  unfolding handler_loop
  handler_table fuel = do
    push_handlers
    t ← lua_gettop
    lua_push nil
    handler_loop fuel t
    lua_settop (t - 1)
    pure 0

  abbrev pub handler_function : Bool → Cmd ℕ
  handler_function false =
      lual_error "carrica -> %s called with a bad value, syntax is: VM:handler('name', func)"
  handler_function true = do
    push_handlers
    push_arg 2
    push_arg 3
    lua_settable 3
    lua_pop 1
    pure 0

  handler_given : ℕ → (is_table is_string : Bool) → Cmd ℕ
  unfolding handler_loop
  handler_given fuel true s = handler_table fuel
  handler_given fuel false true = arg_is is_function_value 3 >>= handler_function
  handler_given fuel false false = lual_error "carrica -> badly formatted call to %s"

  handler_valid : ℕ → Bool → Cmd ℕ
  unfolding handler_given
  handler_valid fuel false = lual_error "carrica -> %s called on an invalid VM instance"
  handler_valid fuel true = do
    is_table ← arg_is is_table_argument 2
    is_string ← arg_is is_string_value 2
    handler_given fuel is_table is_string

  unfoldable pub lcvm_handler : ℕ → Cmd ℕ
  unfolding handler_valid
  lcvm_handler fuel = do lual_checkvm; valid ← vm_is_valid; handler_valid fuel valid
