-- ===== src/Lifecycle/Refused.antt =====
-- src/carrica.c: the methods of a VM, each called with a VM that was released.
use carrica.Base.{ℕ, ◌≡◌, ◌∙◌, ap, String, false, some, List, [], ◌∷◌, ◌==◌, if_true, refl, eq_self}
use carrica.Lua.Value.{Value, bool, udata}
use carrica.Lua.Runtime.{Runtime}
use carrica.Lua.Api.{T, arg, at_index, lua_push}
use carrica.Lua.Args.{from_lua, leave, reversed, lual_checkvm-ok}
use carrica.Marshal.{vm_is_valid}
use carrica.World.{World, Run, Cmd, ok, raised, fault, and_then, pure, ◌>>=◌, ◌>>◌}
use carrica.Lifecycle.{vm_release}
use carrica.Lifecycle.Released.{IsReleased, vm_release-invalid, on_valid_vm-IsReleased}
use carrica.LuaSide.Containers.{lcvm_release, lcvm_gc, release_value}
use carrica.LuaSide.Creation.{lcvm_new_array, lcvm_new_table, new_reference, wren_ensure_slots}
use carrica.LuaSide.Handlers.{lcvm_handler}
use carrica.LuaSide.Handlers.Installing.{lcvm_handler-invalid}
use carrica.LuaSide.Methods.{lcvm_get_method, lcvm_free_method, call_method}
use carrica.LuaSide.Methods.Calling.{arg-reversed}
use carrica.LuaSide.Scripts.{lcvm_set_load_function, lcvm_interpret}
use carrica.LuaSide.VmMethods.{
  lcvm_is_valid, lcvm_set_wren_name, lcvm_has_variable, lcvm_has_module, lcvm_get_class,
  lcvm_free_class,
}

-- A call of the method with the VM and further arguments raises the error of an invalid VM.
abbrev pub Refuses : List Value → World → Cmd ℕ → Type 0
Refuses args w method =
    from_lua method (udata w.cvm.address ∷ args) w
    ≡ raised "carrica -> %s called on an invalid VM instance" w

module _ (w : World) (released : IsReleased w) (args : List Value) where
  abbrev frame : World
  frame = record w { stack = reversed (udata w.cvm.address ∷ args) []; base = 0 }

  first : at_index (arg 1) 0 frame.stack ≡ some (udata w.cvm.address)
  first = arg-reversed (udata w.cvm.address) args []

  gone : w.cvm.vm ≡ false
  gone = ap (λ c. c.vm) released.blank

  is_valid-released : from_lua lcvm_is_valid (udata w.cvm.address ∷ args) w ≡ ok (bool false ∷ []) w
  unfolding lcvm_is_valid
  is_valid-released =
      ap (λ r. leave w (and_then r (λ _. vm_is_valid >>= λ v. lua_push (bool v) >> pure 1)))
        (lual_checkvm-ok frame first released.meta)
      ∙ ap (λ b. ok (bool b ∷ []) w) gone

  handler-released : (fuel : ℕ) ⦃R : Runtime⦄ → Refuses args w (lcvm_handler fuel)
  handler-released fuel = ap (leave w) (lcvm_handler-invalid fuel frame first released.meta gone)

  gc-released : (heap : List ℕ) → from_lua (lcvm_gc heap) (udata w.cvm.address ∷ args) w ≡ ok [] w
  unfolding lcvm_gc vm_release
  gc-released heap =
      ap (λ o. leave w ((release_value heap o >> pure 0) frame)) first
      ∙ ap {A = Run T} (λ r. leave w (and_then r (λ _. pure 0)))
          (if_true (w.cvm.address == w.cvm.address) (vm_release heap frame) fault
            (eq_self w.cvm.address))
      ∙ ap {A = Run T} (λ r. leave w (and_then r (λ _. pure 0)))
          (vm_release-invalid heap frame gone)

  new_array-released : from_lua lcvm_new_array (udata w.cvm.address ∷ args) w ≡ fault
  unfolding lcvm_new_array new_reference wren_ensure_slots
  new_array-released = rw (lual_checkvm-ok frame first released.meta, gone) refl

  new_table-released : from_lua lcvm_new_table (udata w.cvm.address ∷ args) w ≡ fault
  unfolding lcvm_new_table new_reference wren_ensure_slots
  new_table-released = rw (lual_checkvm-ok frame first released.meta, gone) refl

  -- With a VM that was released and any further arguments: isValid is false; release, setWrenName,
  -- setLoadFunction, handler, interpret, getMethod, freeMethod, hasVariable, hasModule, getClassObj
  -- and freeClassObj each raise the error of an invalid VM; newArray, newTable and a function that
  -- getMethod gave read the Wren VM that is gone; and the collection of the container changes nothing.
  pub lcvm_is_valid-IsReleased :
      ⦃R : Runtime⦄ (heap : List ℕ) (fuel p : ℕ) (snprintf : String → String → String → String)
      (closure : (p n : ℕ) → ℕ) (lua_load love_load : Cmd T)
      (wren_interpret : String → String → Cmd T) (wren_call : String → Cmd T)
      → (from_lua lcvm_is_valid (udata w.cvm.address ∷ args) w ≡ ok (bool false ∷ []) w)
        × Refuses args w (lcvm_release heap)
        × Refuses args w lcvm_set_wren_name
        × Refuses args w (lcvm_set_load_function lua_load love_load)
        × Refuses args w (lcvm_handler fuel)
        × Refuses args w (lcvm_interpret wren_interpret)
        × Refuses args w (lcvm_get_method snprintf closure)
        × Refuses args w (lcvm_free_method snprintf)
        × Refuses args w lcvm_has_variable
        × Refuses args w lcvm_has_module
        × Refuses args w lcvm_get_class
        × Refuses args w lcvm_free_class
        × (from_lua lcvm_new_array (udata w.cvm.address ∷ args) w ≡ fault)
        × (from_lua lcvm_new_table (udata w.cvm.address ∷ args) w ≡ fault)
        × (from_lua (call_method wren_call p) args w ≡ fault)
        × (from_lua (lcvm_gc heap) (udata w.cvm.address ∷ args) w ≡ ok [] w)
  unfolding lcvm_release lcvm_set_wren_name lcvm_set_load_function lcvm_interpret lcvm_get_method
      lcvm_free_method lcvm_has_variable lcvm_has_module lcvm_get_class lcvm_free_class
  lcvm_is_valid-IsReleased heap fuel p snprintf closure lua_load love_load wren_interpret
        wren_call =
      let (_, raises, calls, _) = on_valid_vm-IsReleased w released args in
      (
        is_valid-released,
        raises _,
        raises _,
        raises _,
        handler-released fuel,
        raises _,
        raises _,
        raises _,
        raises _,
        raises _,
        raises _,
        raises _,
        new_array-released,
        new_table-released,
        calls wren_call p,
        gc-released heap,
      )
