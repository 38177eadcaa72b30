-- ===== src/LuaSide/Methods.antt =====
-- Methods of Wren that Lua calls: vmGetMethod, vmFreeMethod and vmCallMethodFromLua of src/vm.c, and
-- lcvmGetMethod, lcvmFreeMethod and callMethod of src/carrica.c. What snprintf makes of the three
-- names, cut to 255 characters, is a parameter, and so is what wrenCall does.
pub mod Calling
pub mod Freeing
use text.Mathlib.Text.{◌==◌ as str_eq}
use carrica.Base.{
  ℕ, zero, suc, String, Bool, true, false, ◌&&◌, Option, none, some, List, [], ◌∷◌, update,
  if◌then◌else◌,
}
use carrica.Lua.Value.{Value, func}
use carrica.Lua.Runtime.{Runtime}
use carrica.Lua.Api.{T, arg, lua_push, or_fault}
use carrica.Lua.Args.{lua_gettop}
use carrica.LuaSide.Creation.{wren_ensure_slots}
use carrica.LuaSide.VmMethods.{on_valid_vm, lual_checkstring}
use carrica.Marshal.{
  slot_handle, wren_set_slot_from_lua, wren_slot_is_lua_safe, lua_push_from_wren_slot,
}
use carrica.Wren.Value.{Wren}
use carrica.Wren.Api.{wren_has_module, wren_has_variable, wren_get_variable, wren_set_slot}
use carrica.World.{World, Method, ok, fault, Cmd, pure, lual_error, ◌>>=◌, ◌>>◌}

-- HASH_FIND_STR and HASH_DEL of the first entry with the name
abbrev pub hash_find : String → List (String × ℕ) → Option ℕ
hash_find key [] = none
hash_find key ((k, p) ∷ t) = if str_eq key k then some p else hash_find key t

abbrev pub hash_del : String → List (String × ℕ) → List (String × ℕ)
hash_del key [] = []
hash_del key ((k, p) ∷ t) = if str_eq key k then t else (k, p) ∷ hash_del key t

-- The new method, with the class that is in slot 0.
abbrev pub add_method : (key signature : String) → Cmd (Option ℕ)
add_method key signature w = ok (some w.new_method) (record w {
  method_hash = (key, w.new_method) ∷ w.method_hash;
  methods =
      update w.methods w.new_method
        (some (record { name = key; class = w.slots 0; signature = signature }));
  new_method = suc w.new_method;
})

abbrev pub make_method : (key module_name class_name signature : String) → Bool → Cmd (Option ℕ)
make_method key m c signature true = wren_get_variable m c 0 >> add_method key signature
make_method key m c signature false = pure none

abbrev pub get_or_make : (key module_name class_name signature : String) → Option ℕ → Cmd (Option ℕ)
get_or_make key m c signature (some p) = pure (some p)
get_or_make key m c signature none = do
  has_module ← wren_has_module m
  has_variable ← wren_has_variable m c
  make_method key m c signature (has_module && has_variable)

-- HASH_DEL, the release of the two handles, and free
abbrev pub free_found : String → Option ℕ → Cmd T
free_found key none = pure tt
free_found key (some p) = λ w.
    ok tt (record w { method_hash = hash_del key w.method_hash; methods = update w.methods p none })

-- vmFreeMethod: what is found under the name leaves the table, and the method itself is freed.
abbrev pub free_if_found : ℕ → (name : String) → Option ℕ → Cmd T
free_if_found p name none = pure tt
free_if_found p name (some e) = λ w.
    ok tt
      (record w { method_hash = hash_del name w.method_hash; methods = update w.methods p none })

abbrev pub free_allocated : ℕ → Method → Cmd T
free_allocated p m w = free_if_found p m.name (hash_find m.name w.method_hash) w

unfoldable pub vm_free_method : ℕ → Cmd T
vm_free_method p = (λ w. or_fault (w.methods p) w) >>= free_allocated p

-- The arguments i to i + n - 1 of the frame go to the slots of the same numbers.
unfoldable pub set_slots : (n i : ℕ) → Cmd T
set_slots zero i = pure tt
set_slots (suc n) i = wren_set_slot_from_lua i (arg i) >> set_slots n (suc i)

abbrev pub push_result : Bool → Cmd ℕ
push_result true = lua_push_from_wren_slot 0 >> pure 1
push_result false = pure 0

module _ (snprintf : String → String → String → String) where
  unfoldable pub vm_get_method : (module_name class_name signature : String) → Cmd (Option ℕ)
  vm_get_method m c signature w =
      get_or_make (snprintf m c signature) m c signature
        (hash_find (snprintf m c signature) w.method_hash) w

  abbrev pub free_by_name : (module_name class_name signature : String) → Cmd T
  free_by_name m c signature w =
      free_found (snprintf m c signature) (hash_find (snprintf m c signature) w.method_hash) w

  -- lua_pushcclosure makes a new closure of callMethod at each call: the function of the n-th closure,
  -- over the method p, has the number `closure p n`.
  abbrev pub push_closure : (closure : (p n : ℕ) → ℕ) → Option ℕ → Cmd ℕ
  push_closure closure none =
      lual_error "carrica -> could not find method '%s' for class '%s' in module '%s"
  push_closure closure (some p) = λ w. ok 1 (record w {
    stack = func (closure p w.new_closure) ∷ w.stack;
    new_closure = suc w.new_closure;
  })

  unfoldable pub lcvm_get_method : ⦃R : Runtime⦄ → (closure : (p n : ℕ) → ℕ) → Cmd ℕ
  unfolding on_valid_vm vm_get_method
  lcvm_get_method closure = on_valid_vm (do
    m ← lual_checkstring 2
    c ← lual_checkstring 3
    signature ← lual_checkstring 4
    p ← vm_get_method m c signature
    push_closure closure p)

  unfoldable pub lcvm_free_method : ⦃R : Runtime⦄ → Cmd ℕ
  unfolding on_valid_vm
  lcvm_free_method = on_valid_vm (do
    m ← lual_checkstring 2
    c ← lual_checkstring 3
    signature ← lual_checkstring 4
    free_by_name m c signature
    pure 0)

module _ (wren_call : String → Cmd T) where
  -- A method that was freed is memory that is no longer there.
  abbrev pub call_allocated : ℕ → Method → Cmd T
  unfolding set_slots
  call_allocated top p = wren_set_slot 0 p.class >> set_slots top 1 >> wren_call p.signature

  unfoldable pub vm_call_method_from_lua : (p top : ℕ) → Cmd T
  unfolding wren_ensure_slots set_slots
  vm_call_method_from_lua p top =
      wren_ensure_slots >> (λ w. or_fault (w.methods p) w) >>= call_allocated top

  unfoldable pub call_method : ℕ → Cmd ℕ
  unfolding vm_call_method_from_lua
  call_method p = do
    top ← lua_gettop
    vm_call_method_from_lua p top
    safe ← wren_slot_is_lua_safe 0
    push_result safe
