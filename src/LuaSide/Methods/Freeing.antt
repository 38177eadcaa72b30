-- ===== src/LuaSide/Methods/Freeing.antt =====
-- getMethod again, and freeMethod, of src/carrica.c.
use carrica.Base.{
  String, ℕ, suc, ◌≡◌, ◌∙◌, refl, ap, true, none, some, List, [], ◌∷◌, length, update, update_self,
  if_true, ◌-◌,
}
use carrica.Lua.Value.{Value, str, func, udata}
use carrica.Lua.Equality.{eq_self_key}
use carrica.Lua.Runtime.{Runtime}
use carrica.Lua.Api.{T, or_fault}
use carrica.Lua.Args.{from_lua, reversed, leave}
use carrica.Marshal.{wren_slot_is_lua_safe}
use carrica.Wren.Value.{Wren}
use carrica.World.{World, Run, Cmd, ok, fault, and_then, ◌>>=◌}
use carrica.LuaSide.Sharing.{wren_ensure_slots-ok}
use carrica.LuaSide.VmMethods.{on_valid_vm-ok}
use carrica.LuaSide.Methods.{
  hash_find, vm_get_method, lcvm_get_method, lcvm_free_method, call_method, vm_call_method_from_lua,
  call_allocated, push_result,
}
use carrica.LuaSide.Methods.Calling.{given, made_method}

call-freed :
    (wren_call : String → Cmd T) (p : ℕ) (vs : List Value) (w : World)
    → w.cvm.vm ≡ true
    → w.methods p ≡ none
    → from_lua (call_method wren_call p) vs w ≡ fault
unfolding call_method vm_call_method_from_lua
call-freed wren_call p vs w valid gone =
    let f : World = record w { stack = reversed vs []; base = 0 } in
    let top : ℕ = length (reversed vs []) - 0 in
    ap {A = Run T}
      (λ r. leave w (
        and_then
          (and_then (and_then r (λ _ x. or_fault (x.methods p) x)) (call_allocated wren_call top))
          (λ _. wren_slot_is_lua_safe 0 >>= push_result)))
      (wren_ensure_slots-ok f valid)
    ∙ ap
        (λ o. leave w (
          and_then (and_then (or_fault o f) (call_allocated wren_call top))
            (λ _. wren_slot_is_lua_safe 0 >>= push_result)))
        gone

module _ (snprintf : String → String → String → String) (m c signature : String) (class : Wren)
    (w : World) (valid : w.cvm.vm ≡ true) (meta : w.metatables w.cvm.address ≡ some w.wrenvm)
    (there : w.modules m ≡ true) (top : w.variables m c ≡ some class)
    (new : hash_find (snprintf m c signature) w.method_hash ≡ none) where
  abbrev names : List Value
  names = udata w.cvm.address ∷ str m ∷ str c ∷ str signature ∷ []

  abbrev framed : World → World
  framed u = record u { stack = str signature ∷ str c ∷ str m ∷ udata w.cvm.address ∷ []; base = 0 }

  abbrev kept : World
  kept = given (snprintf m c signature) signature class w

  -- After the second function is made.
  abbrev again : World
  again = record kept { new_closure = suc kept.new_closure }

  found : hash_find (snprintf m c signature) kept.method_hash ≡ some w.new_method
  found = if_true _ _ _ (eq_self_key (str (snprintf m c signature)) refl)

  found_method :
      vm_get_method snprintf m c signature (framed kept) ≡ ok (some w.new_method) (framed kept)
  unfolding vm_get_method
  found_method = rw found refl

  module _ ⦃R : Runtime⦄ (closure : (p n : ℕ) → ℕ) where
    get-new :
        from_lua (lcvm_get_method snprintf closure) names w
        ≡ ok (func (closure w.new_method w.new_closure) ∷ []) kept
    unfolding lcvm_get_method
    get-new =
        ap (leave w) (on_valid_vm-ok _ (framed w) refl meta valid)
        ∙ rw (made_method snprintf (λ s u. ok tt u) m c signature class (framed w) there top new)
            refl

    get-kept :
        from_lua (lcvm_get_method snprintf closure) names kept
        ≡ ok (func (closure w.new_method (suc w.new_closure)) ∷ []) again
    unfolding lcvm_get_method
    get-kept =
        ap (leave kept) (on_valid_vm-ok _ (framed kept) refl meta valid) ∙ rw found_method refl

    abbrev freed : World
    freed = record again {
      method_hash = w.method_hash;
      methods = update kept.methods w.new_method none;
    }

    free-kept : from_lua (lcvm_free_method snprintf) names again ≡ ok [] freed
    unfolding lcvm_free_method
    free-kept =
        ap (leave again) (on_valid_vm-ok _ (framed again) refl meta valid)
        ∙ rw (found, eq_self_key (str (snprintf m c signature)) refl) refl

    -- In a valid VM, getMethod of a method with a new name whose class is a top level variable gives a
    -- function, and getMethod of the same names gives the function of the next closure, over the same
    -- method, and changes nothing but the count of closures. freeMethod of these names returns nothing
    -- and leaves the hash as it was before; a call of either function, with any arguments, then uses a
    -- method that was freed.
    pub call_method-lcvm_free_method :
        (p : ℕ) × (w1 w2 w3 : World) × (from_lua (lcvm_get_method snprintf closure) names w
          ≡ ok (func (closure p w.new_closure) ∷ []) w1)
        × (from_lua (lcvm_get_method snprintf closure) names w1
            ≡ ok (func (closure p (suc w.new_closure)) ∷ []) w2)
        × (w2 ≡ record w1 { new_closure = suc w1.new_closure })
        × (from_lua (lcvm_free_method snprintf) names w2 ≡ ok [] w3)
        × (w3.method_hash ≡ w.method_hash)
        × ((wren_call : String → Cmd T) (vs : List Value)
            → from_lua (call_method wren_call p) vs w3 ≡ fault)
    call_method-lcvm_free_method = (
      w.new_method,
      kept,
      again,
      freed,
      get-new,
      get-kept,
      refl,
      free-kept,
      refl,
      λ wren_call vs.
          call-freed wren_call w.new_method vs freed valid
            (update_self kept.methods w.new_method none),
    )
