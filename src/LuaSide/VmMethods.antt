-- ===== src/LuaSide/VmMethods.antt =====
-- src/carrica.c: the methods of a VM that only read or set one thing, and the settings of the library.
use carrica.Base.{◌≡◌, ◌∙◌, ap, ℕ, String, Bool, true, false, Option, some, if◌then◌else◌}
use carrica.Lua.Value.{udata, Value, Light, bool, num, str}
use carrica.Lua.Runtime.{Runtime}
use carrica.Lua.Api.{
  at_index, arg, T, lua_push, lua_pushvalue, lua_pushlightuserdata, lua_settable_registry,
}
use carrica.Lua.Args.{lual_checkvm, lual_checkvm-ok, lua_arg, arg_is, push_arg}
use carrica.LuaSide.Handlers.{is_string_value, is_function_value}
use carrica.Marshal.{vm_is_valid}
use carrica.Wren.Api.{wren_has_module, wren_has_variable}
use carrica.World.{World, and_then, ok, raised, Cmd, pure, lual_error, ◌>>=◌, ◌>>◌}

-- luaL_checkstring: a number is converted.
module _ ⦃R : Runtime⦄ where
  abbrev pub text_of : Option Value → Cmd String
  text_of (some (str s)) w = ok s w
  text_of (some (num n)) w = ok (R.text_of_number n) w
  text_of _ w = raised "bad argument" w

  abbrev pub lual_checkstring : ℕ → Cmd String
  lual_checkstring i = lua_arg i >>= text_of

abbrev pub checked : Bool → Cmd ℕ → Cmd ℕ
checked true run = run
checked false run = lual_error "carrica -> %s called on an invalid VM instance"

-- luaL_checkudata and the test that most methods of a VM begin with
unfoldable pub on_valid_vm : Cmd ℕ → Cmd ℕ
on_valid_vm run = do lual_checkvm; valid ← vm_is_valid; checked valid run

unfoldable pub lcvm_is_valid : Cmd ℕ
lcvm_is_valid = do lual_checkvm; valid ← vm_is_valid; lua_push (bool valid); pure 1

abbrev store_wren_name : String → Cmd T
store_wren_name name w = ok tt (record w { cvm = record w.cvm { wren_name = some name } })

-- vmSetWrenName
unfoldable pub vm_set_wren_name : String → Cmd T
vm_set_wren_name name w = if w.cvm.vm then store_wren_name name w else ok tt w

unfoldable pub lcvm_set_wren_name : ⦃R : Runtime⦄ → Cmd ℕ
unfolding on_valid_vm vm_set_wren_name
lcvm_set_wren_name = on_valid_vm (do name ← lual_checkstring 2; vm_set_wren_name name; pure 0)

-- vmHasVariable and vmHasModule
unfoldable pub vm_has_variable : (module_name name : String) → Cmd Bool
vm_has_variable m name w = if w.cvm.vm then wren_has_variable m name w else ok false w

unfoldable pub vm_has_module : String → Cmd Bool
vm_has_module m w = if w.cvm.vm then wren_has_module m w else ok false w

unfoldable pub lcvm_has_variable : ⦃R : Runtime⦄ → Cmd ℕ
unfolding on_valid_vm vm_has_variable
lcvm_has_variable = on_valid_vm (do
  m ← lual_checkstring 2
  name ← lual_checkstring 3
  b ← vm_has_variable m name
  lua_push (bool b)
  pure 1)

unfoldable pub lcvm_has_module : ⦃R : Runtime⦄ → Cmd ℕ
unfolding on_valid_vm vm_has_module
lcvm_has_module =
    on_valid_vm (do m ← lual_checkstring 2; b ← vm_has_module m; lua_push (bool b); pure 1)

unfoldable pub lcvm_get_class : Cmd ℕ
unfolding on_valid_vm
lcvm_get_class = on_valid_vm (lual_error "carrica -> vm.getClassObj() not yet implemented")

unfoldable pub lcvm_free_class : Cmd ℕ
unfolding on_valid_vm
lcvm_free_class = on_valid_vm (lual_error "carrica -> vm.freeClassObj() not yet implemented")

-- The top of the stack, which is the last argument, is what is stored.
abbrev sort_func_given : Bool → Cmd ℕ
sort_func_given true = do
  lua_pushlightuserdata Light.sort_ref
  lua_pushvalue 2
  lua_settable_registry
  pure 0
sort_func_given false = lual_error "carrica -> .setSortFunc() passed a non-function parameter"

unfoldable pub lc_set_sort_func : Cmd ℕ
lc_set_sort_func = arg_is is_function_value 1 >>= sort_func_given

abbrev default_name_given : Bool → Cmd ℕ
default_name_given true = push_arg 1 >> lua_settable_registry >> pure 0
default_name_given false =
    lual_error "carrica -> .setDefaultWrenName() passed a non-string parameter"

unfoldable pub lc_set_default_wren_name : Cmd ℕ
lc_set_default_wren_name = do
  lua_pushlightuserdata Light.default_name
  is_string ← arg_is is_string_value 1
  default_name_given is_string

pub on_valid_vm-invalid :
    (run : Cmd ℕ) (w : World)
    → at_index (arg 1) w.base w.stack ≡ some (udata w.cvm.address)
    → w.metatables w.cvm.address ≡ some w.wrenvm
    → w.cvm.vm ≡ false
    → on_valid_vm run w ≡ raised "carrica -> %s called on an invalid VM instance" w
unfolding on_valid_vm
on_valid_vm-invalid run w here meta invalid =
    ap (λ r. and_then r (λ _. vm_is_valid >>= λ b. checked b run)) (lual_checkvm-ok w here meta)
    ∙ ap (λ b. checked b run w) invalid

pub on_valid_vm-ok :
    (run : Cmd ℕ) (w : World)
    → at_index (arg 1) w.base w.stack ≡ some (udata w.cvm.address)
    → w.metatables w.cvm.address ≡ some w.wrenvm
    → w.cvm.vm ≡ true
    → on_valid_vm run w ≡ run w
unfolding on_valid_vm
on_valid_vm-ok run w here meta valid =
    ap (λ r. and_then r (λ _. vm_is_valid >>= λ b. checked b run)) (lual_checkvm-ok w here meta)
    ∙ ap (λ b. checked b run w) valid
