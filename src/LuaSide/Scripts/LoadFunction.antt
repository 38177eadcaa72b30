-- ===== src/LuaSide/Scripts/LoadFunction.antt =====
-- lcvmSetLoadFunction of src/carrica.c, with vmLoadModule of src/vm.c behind it.
use carrica.Base.{ℕ, ◌≡◌, refl, ap, String, true, none, some, List, [], ◌∷◌, if_true, eq_self, ◌==◌}
use carrica.Lua.Value.{Value, Light, str, func, udata}
use carrica.Lua.Api.{T, set_registry}
use carrica.Lua.Args.{from_lua, leave}
use carrica.Lua.Runtime.{Runtime, returned}
use carrica.World.{World, ok, Cmd, pure, ◌>>=◌, ◌>>◌}
use carrica.Lua.Args.{lua_arg}
use carrica.Modules.{contents, find_module}
use carrica.Callbacks.{vm_load_module, own_modules}
use carrica.Callbacks.Loading.{vm_load_module-func}
use carrica.LuaSide.VmMethods.{on_valid_vm-ok}
use carrica.LuaSide.Scripts.{lcvm_set_load_function, load_function_given}

module _ ⦃R : Runtime⦄ (lua_load love_load : Cmd T) where
  -- setLoadFunction(f) in a valid VM: a module that the VM does not have is then loaded by a call of f
  -- with the name; when it returns a text, this is the source, and the stack is as before.
  pub vm_load_module-lcvm_set_load_function :
      (w : World) (f : ℕ)
      → w.cvm.vm ≡ true
      → w.metatables w.cvm.address ≡ some w.wrenvm
      → (w' : World) × (from_lua
            (lcvm_set_load_function lua_load love_load)
            (udata w.cvm.address ∷ func f ∷ [])
            w
          ≡ ok [] w')
        × ((name source : String) (st vs : List Value) (u : World)
            → find_module name (contents (own_modules w)) ≡ none
            → R.call f (str name ∷ []) (record w' { stack = st }) ≡ returned (str source ∷ vs) u
            → vm_load_module name (record w' { stack = st })
              ≡ ok (record { source = some source; on_complete = true }) (record u { stack = st }))
  unfolding lcvm_set_load_function
  vm_load_module-lcvm_set_load_function w f valid meta =
      let after : World = record w {
        registry = set_registry w.registry (Light.load_module w.cvm.address) (func f);
        cvm = record w.cvm { load_module = true };
      } in
      (
        after,
        ap (leave w) (
            on_valid_vm-ok (do v ← lua_arg 2; load_function_given lua_load love_load v; pure 0)
              (record w { stack = func f ∷ udata w.cvm.address ∷ []; base = 0 }) refl meta valid),
        λ name source st vs u missing ran.
            vm_load_module-func {w = record after { stack = st }} name source f missing refl
              (if_true (w.cvm.address == w.cvm.address) _ _ (eq_self w.cvm.address)) ran,
      )
