-- ===== src/Callbacks.antt =====
-- src/vm.c: the functions that a Wren VM is configured with. Wren calls them with its own arguments;
-- what a binary module binds is an argument.
pub mod Loading
pub mod Writing
use carrica.Base.{ℕ, String, Bool, true, false, Option, none, some, if◌then◌else◌}
use carrica.Lua.Value.{Value, Light, LuaType, lua_type, t_function, t_table, str}
use carrica.Lua.Runtime.{Runtime}
use carrica.Lua.Api.{
  T, lua_push, lua_pop, lua_pushvalue, lua_pushlightuserdata, lua_gettable_registry, lua_getfield,
  lua_call,
}
use carrica.Binding.{ClassDef}
use carrica.Host.{top_type, push_handlers}
use carrica.Modules.{Growing, Module, contents, find_module}
use carrica.World.{World, ok, fault, Cmd, pure, lual_error, ◌>>=◌, ◌>>◌}

-- WrenLoadModuleResult: the source, and whether there is a function that frees it
pub record LoadResult : Type 0 where
  pub source : Option String
  pub on_complete : Bool

-- WrenErrorType
pub data ErrorType : Type 0 where
  error_compile error_runtime error_stack_trace : ErrorType

-- cvm->modtable
abbrev pub own_modules : World → Growing Module
own_modules w = (w.system.vms w.cvm.address).modules

module _ ⦃R : Runtime⦄ where
  -- The field of the table of handlers, a table itself, is on top.
  abbrev pub call_field : String → LuaType → Cmd T
  call_field text t_function = do lua_pushvalue 2; lua_push (str text); v ← lua_call 2; pure tt
  call_field text _ = pure tt

  -- The entry of the handlers is on top: a function is called with the text, a table by its method.
  abbrev pub call_handler : (name text : String) → LuaType → Cmd T
  call_handler name text t_function = do
    lua_pushvalue 1
    lua_push (str text)
    v ← lua_call 1
    pure tt
  call_handler name text t_table = do lua_getfield 1 name; t ← top_type; call_field text t
  call_handler name text _ = pure tt

  abbrev pub emit : (name text : String) → Cmd T
  emit name text = do
    push_handlers
    lua_getfield 1 name
    t ← top_type
    call_handler name text t
    lua_pop 2

  unfoldable pub vm_write_fn : String → Cmd T
  vm_write_fn text w = if w.cvm.vm then emit "write" text w else ok tt w

  -- The text that snprintf makes of the message, the line and the module is a parameter.
  unfoldable pub vm_error_fn :
      (snprintf : ErrorType → String → ℕ → String → String)
      → ErrorType
      → (module_name : String) → (line : ℕ) → (msg : String) → Cmd T
  vm_error_fn snprintf kind module_name line msg w =
      if w.cvm.vm then emit "error" (snprintf kind msg line module_name) w else ok tt w

  loaded_value : String → Value → Cmd LoadResult
  loaded_value name (str s) = lua_pop 1 >> pure (record { source = some s; on_complete = true })
  loaded_value name _ = lual_error "carrica -> could not find module '%s' to load"

  -- The function that Lua has set to load modules.
  load_by_function : String → Cmd LoadResult
  unfolding loaded_value
  load_by_function name = do
    λ w. lua_pushlightuserdata (Light.load_module w.cvm.address) w
    lua_gettable_registry
    lua_push (str name)
    v ← lua_call 1
    lua_push v
    loaded_value name v

  load_found : String → Option Module → Cmd LoadResult
  unfolding load_by_function
  load_found name (some m) = pure (record { source = m.def.source; on_complete = false })
  load_found name none = λ w.
      if w.cvm.load_module
      then load_by_function name w
      else lual_error "carrica -> could not find module '%s' to load" w

  unfoldable pub vm_load_module : String → Cmd LoadResult
  unfolding load_found find_module
  vm_load_module name w = load_found name (find_module name (contents (own_modules w))) w

-- The C function that a module has to bind its methods, at its arguments; none is NULL.
abbrev pub Bind : Type 0
Bind = ℕ → (module_name class_name : String) → Bool → (signature : String) → Option String

abbrev pub not_bound : Bool → Cmd (Option String)
not_bound true =
    lual_error "carrica -> could not find foreign static method '%s' in class '%s' of module '%s'"
not_bound false =
    lual_error "carrica -> could not find foreign method '%s' in class '%s' of module '%s'"

abbrev pub bound : Bool → Option String → Cmd (Option String)
bound is_static (some f) = pure (some f)
bound is_static none = not_bound is_static

-- A module that is a source has no function to call.
abbrev pub bind_in :
    (Option ℕ → Option (Option String)) → Bool → Option Module → Cmd (Option String)
bind_in call is_static none = not_bound is_static
bind_in call is_static (some m) = elim (call m.bind_foreign_method) [
  | none ↦ λ w. fault
  | some f ↦ bound is_static f
]

abbrev pub call_bind :
    Bind → (module_name class_name : String) → Bool → String → Option ℕ → Option (Option String)
call_bind call m c is_static signature none = none
call_bind call m c is_static signature (some f) = some (call f m c is_static signature)

unfoldable pub vm_bind_foreign_method_fn :
    Bind → (module_name class_name : String) → Bool → (signature : String) → Cmd (Option String)
unfolding find_module
vm_bind_foreign_method_fn call m c is_static signature w =
    if w.cvm.vm
    then bind_in (call_bind call m c is_static signature) is_static
        (find_module m (contents (own_modules w))) w
    else ok none w

-- The same of a foreign class, by its functions to allocate and finalize; none is nullMethods.
abbrev pub BindClass : Type 0
BindClass = ℕ → (module_name class_name : String) → Option ClassDef

abbrev pub class_bound : Option ClassDef → Cmd (Option ClassDef)
class_bound (some d) = pure (some d)
class_bound none = lual_error "carrica -> could not find foreign class '%s' of module '%s'"

abbrev pub call_class_bind :
    BindClass → (module_name class_name : String) → Option ℕ → Cmd (Option ClassDef)
call_class_bind call m c none = λ w. fault
call_class_bind call m c (some f) = class_bound (call f m c)

abbrev pub bind_class_in :
    BindClass → (module_name class_name : String) → Option Module → Cmd (Option ClassDef)
bind_class_in call m c none = class_bound none
bind_class_in call m c (some found) = call_class_bind call m c found.bind_foreign_class

unfoldable pub vm_bind_foreign_class_fn :
    BindClass → (module_name class_name : String) → Cmd (Option ClassDef)
unfolding find_module
vm_bind_foreign_class_fn call m c w =
    if w.cvm.vm
    then bind_class_in call m c (find_module m (contents (own_modules w))) w
    else ok none w
