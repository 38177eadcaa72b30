-- ===== src/Lifecycle/Fresh.antt =====
-- A VM that lcNewVM of src/carrica.c has made: its handlers, its constants, and what Wren prints.
use carrica.Base.{
  ℕ, suc, ◌<◌, ◌≡◌, ◌∙◌, refl, sym, ap, String, true, Option, some, List, [], ◌∷◌, update,
  update_self, update_ne, eq_self, if_true, arith, ◌==◌,
}
use carrica.Lua.Value.{Value, Light, str, table, udata, bool, func}
use carrica.Lua.Table.{Table, lookup}
use carrica.Lua.Runtime.{Runtime, returned}
use carrica.Lua.Api.{lua_push}
use carrica.Lua.Args.{from_lua, leave, lual_checkvm-ok}
use carrica.Marshal.{vm_is_valid}
use carrica.World.{World, ok, and_then, pure, ◌>>=◌, ◌>>◌}
use carrica.Host.Refs.{IsHost}
use carrica.Callbacks.{vm_write_fn}
use carrica.Callbacks.Writing.{is_function, vm_write_fn-Handles}
use carrica.Lifecycle.{NewWren}
use carrica.Lifecycle.Opening.{lua_handlers, made, older, lc_new_vm-made}
use carrica.LuaSide.Containers.{lc_new_vm}
use carrica.LuaSide.VmMethods.{lcvm_is_valid}
use carrica.Modules.{Module}
use carrica.Vms.{System}
use carrica.Vms.Shared.{IsSystem}
use carrica.Vms.Creation.{Creates, vm_new-Creates}

pub lcvm_is_valid-ok :
    (w : World)
    → w.metatables w.cvm.address ≡ some w.wrenvm
    → from_lua lcvm_is_valid (udata w.cvm.address ∷ []) w ≡ ok (bool w.cvm.vm ∷ []) w
unfolding lcvm_is_valid
lcvm_is_valid-ok w meta =
    ap (λ r. leave w (and_then r (λ _. vm_is_valid >>= λ v. lua_push (bool v) >> pure 1)))
      (lual_checkvm-ok (record w { stack = udata w.cvm.address ∷ []; base = 0 }) refl meta)

module _ ⦃R : Runtime⦄ where
  -- The VM of the world is a new one, whose handlers are Lua's print and error, and which has no
  -- constants; it is a valid VM of the system with every shared module that has a name, in order. The
  -- stack, the older tables and the other VMs are as before.
  pub record Opens (sh : List Module) (w w' : World) : Type 0 where
    pub address : w'.cvm.address ≡ w.new_udata
    pub meta : w'.metatables w'.cvm.address ≡ some w'.wrenvm
    pub lua : w'.cvm.lua ≡ true
    pub host : IsHost w.new_table w'
    pub write :
        lookup (str "write") (w'.tables w.new_table) ≡ lookup (str "print") (w.tables w.globals)
    pub error :
        lookup (str "error") (w'.tables w.new_table) ≡ lookup (str "error") (w.tables w.globals)
    pub constants : w'.registry (Light.cvm_name w'.cvm.name) ≡ table (suc w.new_table)
    pub no_constants : w'.tables (suc w.new_table) ≡ []
    pub creates : Creates sh w.new_udata w.system w'.system
    pub tables : (a : ℕ) → a < w.new_table → w'.tables a ≡ w.tables a
    pub rerefs : w'.rerefs ≡ w.rerefs
    pub refs : w'.refs ≡ w.refs
    pub stack : w'.stack ≡ w.stack

  module _ (w : World) where
    write-lua_handlers :
        lookup (str "write") (lua_handlers w) ≡ lookup (str "print") (w.tables w.globals)
    write-lua_handlers =
        R.lookup-raw_set (R.raw_set [] (str "write") (lookup (str "print") (w.tables w.globals)))
          (str "error") (lookup (str "error") (w.tables w.globals)) (str "write") refl
        ∙ R.lookup-raw_set [] (str "write") (lookup (str "print") (w.tables w.globals))
            (str "write") refl

    error-lua_handlers :
        lookup (str "error") (lua_handlers w) ≡ lookup (str "error") (w.tables w.globals)
    error-lua_handlers =
        R.lookup-raw_set (R.raw_set [] (str "write") (lookup (str "print") (w.tables w.globals)))
          (str "error") (lookup (str "error") (w.tables w.globals)) (str "error") refl

  module _ {sh : List Module} {vs : List (Option ℕ)} (w : World) (n : NewWren)
      (is : IsSystem sh vs w.system) where
    made-Opens : (s : System) → Creates sh w.new_udata w.system s → Opens sh w (made n s w)
    made-Opens s creates =
        let t : ℕ → Table = update (update w.tables w.new_table []) (suc w.new_table) [] in
        let own : (made n s w).tables w.new_table ≡ lua_handlers w =
          update_self t w.new_table (lua_handlers w) in
        record {
          address = refl;
          meta = update_self w.metatables w.new_udata (some w.wrenvm);
          lua = refl;
          host = record {
            valid = refl;
            handlers = if_true (w.new_udata == w.new_udata) _ _ (eq_self w.new_udata);
          };
          write = ap (lookup (str "write")) own ∙ write-lua_handlers w;
          error = ap (lookup (str "error")) own ∙ error-lua_handlers w;
          constants = if_true (w.new_name == w.new_name) _ _ (eq_self w.new_name);
          no_constants =
              update_ne t w.new_table (suc w.new_table) (lua_handlers w) (λ e. ground arith)
              ∙ update_self (update w.tables w.new_table []) (suc w.new_table) [];
          creates = creates;
          tables = λ a lt.
              update_ne t w.new_table a (lua_handlers w) (λ e. ground arith)
              ∙ older w.tables w.new_table a lt;
          rerefs = refl;
          refs = refl;
          stack = refl;
        }

    -- In a Lua whose globals are no table made later, and a system with well-formed tables, newVM with
    -- any arguments returns a new VM: it is valid, its handlers for output and errors are what Lua has
    -- as print and error, it has no constants, and it is in the table of VMs with every shared module
    -- that has a name, in order; the stack, the older tables and the other VMs are as before.
    pub lc_new_vm-Opens :
        (args : List Value)
        → w.globals < w.new_table
        → (w' : World) × (from_lua (lc_new_vm n) args w ≡ ok (udata w.new_udata ∷ []) w')
          × Opens sh w w'
    lc_new_vm-Opens args below =
        let (s, runs, creates) = vm_new-Creates w.new_udata is in
        (made n s w, lc_new_vm-made n args s w below runs, made-Opens s creates)

    -- In such a Lua, after newVM isValid of the VM is true, and when print is a function, text that Wren
    -- prints goes to it, and when it returns, the stack is as before.
    pub vm_write_fn-lc_new_vm :
        (args : List Value) (f : ℕ)
        → w.globals < w.new_table
        → lookup (str "print") (w.tables w.globals) ≡ func f
        → (w' : World) × (from_lua (lc_new_vm n) args w ≡ ok (udata w.new_udata ∷ []) w')
          × (from_lua lcvm_is_valid (udata w.new_udata ∷ []) w' ≡ ok (bool true ∷ []) w')
          × ((text : String) (vs : List Value) (u : World)
              → R.call f
                  (str text ∷ [])
                  (record w' { stack = func f ∷ table w.new_table ∷ w'.stack })
                ≡ returned vs u
              → vm_write_fn text w' ≡ ok tt (record u { stack = w'.stack }))
    vm_write_fn-lc_new_vm args f below print =
        let (w', runs, opens) = lc_new_vm-Opens args below in
        (
          w',
          runs,
          ap (λ a. from_lua lcvm_is_valid (udata a ∷ []) w') (sym opens.address)
              ∙ lcvm_is_valid-ok w' opens.meta
              ∙ ap (λ b. ok (bool b ∷ []) w') opens.host.valid,
          λ text vs u ran.
              vm_write_fn-Handles text opens.host (is_function f) (opens.write ∙ print) ran,
        )
