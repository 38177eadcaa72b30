-- ===== src/LuaSide/Scripts.antt =====
-- src/carrica.c: lcvmSetLoadFunction and lcvmInterpret, and vmInterpret of src/vm.c. What the two texts
-- for the load function leave on the stack, and what wrenInterpret does, are parameters.
pub mod LoadFunction
use text.Mathlib.Text.{◌==◌ as str_eq}
use carrica.Base.{ℕ, String, Bool, true, false, Option, none, some, ◌∷◌, if◌then◌else◌}
use carrica.Lua.Value.{Value, Light, nil, num, str, func}
use carrica.Lua.Runtime.{Runtime}
use carrica.Lua.Api.{T, lua_push, lua_pushvalue, lua_pushlightuserdata, lua_settable_registry}
use carrica.Lua.Args.{lua_arg}
use carrica.LuaSide.VmMethods.{on_valid_vm, lual_checkstring}
use carrica.World.{World, ok, Cmd, pure, lual_error, ◌>>=◌, ◌>>◌}

-- cvm->refs.loadModule, and its address as a key
abbrev pub set_load_module : Bool → Cmd T
set_load_module b w = ok tt (record w { cvm = record w.cvm { load_module = b } })

abbrev pub push_load_key : Cmd T
push_load_key w = lua_pushlightuserdata (Light.load_module w.cvm.address) w

abbrev pub remove_load_function : Bool → Cmd T
remove_load_function true = do
  push_load_key
  lua_push nil
  lua_settable_registry
  set_load_module false
remove_load_function false = pure tt

-- The value at -2 is the last argument.
abbrev pub store_load_function : Cmd T
store_load_function = do set_load_module true; push_load_key; lua_pushvalue 2; lua_settable_registry

module _ (lua_load love_load : Cmd T) where
  abbrev pub push_load_text : String → Cmd T
  push_load_text text =
      if str_eq text "lua.filesystem"
      then lua_load
      else if str_eq text "love.filesystem"
      then love_load
      else lual_error "carrica -> %s called with bad parameter: '%s'"

  -- The VM has a load function from here on, whatever the text is.
  abbrev pub load_by_text : String → Cmd T
  load_by_text text = do
    set_load_module true
    push_load_key
    push_load_text text
    lua_settable_registry

  module _ ⦃R : Runtime⦄ where
    abbrev pub load_function_given : Option Value → Cmd T
    load_function_given (some nil) = λ w. remove_load_function w.cvm.load_module w
    load_function_given (some (func f)) = store_load_function
    load_function_given (some (str s)) = load_by_text s
    load_function_given (some (num n)) = load_by_text (R.text_of_number n)
    load_function_given _ = lual_error "carrica -> %s called with bad parameter"

    unfoldable pub lcvm_set_load_function : Cmd ℕ
    unfolding on_valid_vm
    lcvm_set_load_function = on_valid_vm (do v ← lua_arg 2; load_function_given v; pure 0)

abbrev pub module_given : Option Value → String
module_given (some (str s)) = s
module_given _ = "main"

module _ (wren_interpret : (module_name code : String) → Cmd T) where
  -- vmInterpret, at a module that is not NULL
  unfoldable pub vm_interpret : (code module_name : String) → Cmd T
  vm_interpret code m w = if w.cvm.vm then wren_interpret m code w else ok tt w

  unfoldable pub lcvm_interpret : ⦃R : Runtime⦄ → Cmd ℕ
  unfolding on_valid_vm vm_interpret
  lcvm_interpret =
      on_valid_vm
        (do code ← lual_checkstring 2; v ← lua_arg 3; vm_interpret code (module_given v); pure 0)
