-- ===== src/Lifecycle/Released.antt =====
-- lcvmRelease of src/carrica.c, and what Lua gets of a VM that was released.
use carrica.Base.{
  ℕ, ◌<◌, ◌≡◌, ◌≢◌, ◌∙◌, refl, ap, String, true, false, Option, none, some, List, [], ◌∷◌, length,
  set, eq_self, if_true, if_false, ◌==◌, ◌-◌,
}
use carrica.Lua.Value.{Value, Light, nil, udata, bool}
use carrica.Lua.Api.{T, or_fault}
use carrica.Lua.Args.{from_lua, leave, reversed, lual_checkvm-ok}
use carrica.Marshal.{vm_is_valid, wren_slot_is_lua_safe}
use carrica.World.{World, Run, Ref, Cmd, ok, raised, fault, and_then, pure, ◌>>=◌, ◌>>◌}
use carrica.Lifecycle.{NewWren, no_cvm, vm_new, vm_release, wren_free_vm}
use carrica.Lifecycle.Closing.{
  Hashed, freed-Hashed, AllStand, wren_free_vm-Finalizes, shut, vm_release-shut,
}
use carrica.Lifecycle.Fresh.{lcvm_is_valid-ok}
use carrica.LuaSide.Alive.{Alive}
use carrica.LuaSide.Containers.{lcvm_release, lcvm_renew, lcvm_gc, renew_invalid}
use carrica.LuaSide.VmMethods.{on_valid_vm, on_valid_vm-ok, on_valid_vm-invalid, lcvm_is_valid}
use carrica.LuaSide.Methods.{call_method, vm_call_method_from_lua, call_allocated, push_result}
use carrica.LuaSide.Creation.{wren_ensure_slots}
use carrica.LuaSide.Methods.Calling.{arg-reversed}
use carrica.Modules.{Module}
use carrica.Vms.{System, Vm, no_vm}
use carrica.Vms
use carrica.Vms.Shared.{IsSystem}
use carrica.Vms.Release.{vm_release-IsSystem}

-- A VM that is open: its container has the metatable of VMs, and is in the table of VMs.
pub record IsOpen (sh : List Module) (vs : List (Option ℕ)) (w : World) : Type 0 where
  pub valid : w.cvm.vm ≡ true
  pub lua : w.cvm.lua ≡ true
  pub meta : w.metatables w.cvm.address ≡ some w.wrenvm
  pub system : IsSystem sh vs w.system
  pub listed : (w.system.vms w.cvm.address).valid ≡ true
  pub own : (w.system.vms w.cvm.address).id < length vs

-- The container of a VM that was released, still with its metatable.
pub record IsReleased (w : World) : Type 0 where
  pub blank : w.cvm ≡ no_cvm w.cvm.address
  pub meta : w.metatables w.cvm.address ≡ some w.wrenvm

-- The VM is blank, without handlers and methods; its cell in the table of VMs is NULL, and the other
-- VMs, the stack, and the tables of the shared objects that are alive stay.
pub record Closes (sh : List Module) (vs : List (Option ℕ)) (w w' : World) : Type 0 where
  pub released : IsReleased w'
  pub address : w'.cvm.address ≡ w.cvm.address
  pub handlers : w'.registry (Light.cvm w.cvm.address) ≡ nil
  pub constants : (a : ℕ) → w'.registry (Light.cvm_name a) ≡ w.registry (Light.cvm_name a)
  pub methods : (p : ℕ) → Hashed p w.method_hash → w'.methods p ≡ none
  pub system : IsSystem sh (set vs (w.system.vms w.cvm.address).id none) w'.system
  pub vm : w'.system.vms w.cvm.address ≡ no_vm
  pub others : (u : ℕ) → u ≢ w.cvm.address → w'.system.vms u ≡ w.system.vms u
  pub alive : (r : ℕ) → Alive r w → Alive r w'
  pub stack : w'.stack ≡ w.stack

abbrev closed : System → (ℕ → Ref) → (Light → Value) → World → World
closed s refs registry w = record (shut s w) {
  refs = refs;
  registry = registry;
  method_hash = [];
  cvm = no_cvm w.cvm.address;
}

module _ {sh : List Module} {vs : List (Option ℕ)} (heap : List ℕ) (w : World)
    (open_vm : IsOpen sh vs w) where
  lcvm_release-closed :
      (s : System) (refs : ℕ → Ref) (registry : Light → Value) (args : List Value)
      → Vms.vm_release w.cvm.address w.system ≡ some s
      → wren_free_vm heap
          (shut s (record w { stack = reversed (udata w.cvm.address ∷ args) []; base = 0 }))
        ≡ ok tt
            (record (shut s
              (record w { stack = reversed (udata w.cvm.address ∷ args) []; base = 0 })) {
                refs = refs;
                registry = registry;
              })
      → from_lua (lcvm_release heap) (udata w.cvm.address ∷ args) w
        ≡ ok [] (closed s refs registry w)
  unfolding lcvm_release
  lcvm_release-closed s refs registry args runs frees =
      let f : World = record w { stack = reversed (udata w.cvm.address ∷ args) []; base = 0 } in
      ap (leave w) (
        on_valid_vm-ok (vm_release heap >> pure 0) f (arg-reversed (udata w.cvm.address) args [])
          open_vm.meta open_vm.valid)
      ∙ rw (vm_release-shut heap f s open_vm.valid open_vm.lua runs, frees) refl

  pub lcvm_release-Closes :
      (args : List Value)
      → AllStand heap w.rerefs w.refs
      → (w' : World) × (from_lua (lcvm_release heap) (udata w.cvm.address ∷ args) w ≡ ok [] w')
        × Closes sh vs w w'
  lcvm_release-Closes args stand =
      let f : World = record w { stack = reversed (udata w.cvm.address ∷ args) []; base = 0 } in
      let (s, runs, system, blank, others) =
        vm_release-IsSystem w.cvm.address open_vm.system open_vm.listed open_vm.own in
      let (refs, registry, frees, finalizes) = wren_free_vm-Finalizes heap (shut s f) stand in
      (
        closed s refs registry w,
        lcvm_release-closed s refs registry args runs frees,
        record {
          released = record { blank = refl; meta = open_vm.meta };
          address = refl;
          handlers =
              finalizes.containers w.cvm.address
              ∙ if_true (w.cvm.address == w.cvm.address) _ _ (eq_self w.cvm.address);
          constants = λ a. finalizes.names a;
          methods = λ p h. freed-Hashed w.method_hash w.methods p h;
          system = system;
          vm = blank;
          others = others;
          alive = λ r held. finalizes.alive r held;
          stack = refl;
        },
      )

pub vm_release-invalid :
    (heap : List ℕ) (w : World) → w.cvm.vm ≡ false → vm_release heap w ≡ ok tt w
unfolding vm_release
vm_release-invalid heap w invalid = if_false w.cvm.vm _ _ invalid

vm_call_method_from_lua-invalid :
    (wren_call : String → Cmd T) (p top : ℕ) (w : World)
    → w.cvm.vm ≡ false
    → vm_call_method_from_lua wren_call p top w ≡ fault
unfolding vm_call_method_from_lua wren_ensure_slots
vm_call_method_from_lua-invalid wren_call p top w invalid =
    ap {A = Run T}
      (λ r. and_then (and_then r (λ _ x. or_fault (x.methods p) x)) (call_allocated wren_call top))
      (if_false w.cvm.vm (ok tt w) fault invalid)

module _ (w : World) (released : IsReleased w) where
  is_invalid : w.cvm.vm ≡ false
  is_invalid = ap (λ c. c.vm) released.blank

  -- With a VM that was released, isValid is false, a run behind the test of the VM raises an error with
  -- any arguments, a function of getMethod reads the Wren VM that is gone, and the collection of the
  -- container changes nothing.
  pub on_valid_vm-IsReleased :
      (args : List Value)
      → (from_lua lcvm_is_valid (udata w.cvm.address ∷ []) w ≡ ok (bool false ∷ []) w)
        × ((run : Cmd ℕ)
            → from_lua (on_valid_vm run) (udata w.cvm.address ∷ args) w
              ≡ raised "carrica -> %s called on an invalid VM instance" w)
        × ((wren_call : String → Cmd T) (p : ℕ) → from_lua (call_method wren_call p) args w ≡ fault)
        × ((heap : List ℕ) → from_lua (lcvm_gc heap) (udata w.cvm.address ∷ []) w ≡ ok [] w)
  unfolding lcvm_gc call_method vm_release
  on_valid_vm-IsReleased args = (
    lcvm_is_valid-ok w released.meta ∙ ap (λ b. ok (bool b ∷ []) w) is_invalid,
    λ run. ap (leave w) (
        on_valid_vm-invalid run
          (record w { stack = reversed (udata w.cvm.address ∷ args) []; base = 0 })
          (arg-reversed (udata w.cvm.address) args []) released.meta is_invalid),
    λ wren_call p.
        ap (λ r. leave w (and_then r (λ _. wren_slot_is_lua_safe 0 >>= push_result)))
          (vm_call_method_from_lua-invalid wren_call p (length (reversed args []) - 0)
            (record w { stack = reversed args []; base = 0 }) is_invalid),
    λ heap.
        ap {A = Run T} (λ r. leave w (and_then r (λ _. pure 0)))
          (if_true (w.cvm.address == w.cvm.address) _ fault (eq_self w.cvm.address)
            ∙ vm_release-invalid heap (record w { stack = udata w.cvm.address ∷ []; base = 0 })
                is_invalid),
  )

  -- renew of a VM that was released, with any further arguments, uses the lua_State of the container,
  -- which is NULL.
  pub lcvm_renew-IsReleased :
      (n : NewWren) (args : List Value)
      → from_lua (lcvm_renew n) (udata w.cvm.address ∷ args) w ≡ fault
  unfolding lcvm_renew vm_new
  lcvm_renew-IsReleased n args =
      let f : World = record w { stack = reversed (udata w.cvm.address ∷ args) []; base = 0 } in
      ap (λ r. leave w (and_then r (λ _. vm_is_valid >>= renew_invalid n)))
        (lual_checkvm-ok f (arg-reversed (udata w.cvm.address) args []) released.meta)
      ∙ ap (λ b. leave w (renew_invalid n b f)) is_invalid
      ∙ ap (λ l. leave w (and_then (vm_new n l f) (λ _. pure 0))) (ap (λ c. c.lua) released.blank)
