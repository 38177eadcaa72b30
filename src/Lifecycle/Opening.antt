-- ===== src/Lifecycle/Opening.antt =====
-- lcNewVM of src/carrica.c: what a new VM has in Lua and in the table of VMs.
use carrica.Base.{
  ℕ, suc, ◌<◌, ◌≡◌, ◌≢◌, ◌∙◌, refl, ap, String, true, false, Option, none, some, List, [], ◌∷◌,
  update, update_self, update_ne, update-update, ◌==◌, eq_self, if_true, arith,
}
use carrica.Lua.Value.{Value, Light, str, table, udata}
use carrica.Lua.Table.{Table, lookup}
use carrica.Lua.Runtime.{Runtime}
use carrica.Lua.Api.{set_registry}
use carrica.Lua.Args.{from_lua, reversed}
use carrica.World.{World, ok}
use carrica.Lifecycle.{NewWren, vm_new}
use carrica.LuaSide.VmMethods.{vm_set_wren_name}
use carrica.LuaSide.Containers.{
  default_handlers, add_handler, lc_new_vm, name_container, default_wren_name,
}
use carrica.Vms.{System}
use carrica.Vms

-- The world after vmNew of the container at `cvm.address`.
abbrev pub opened : NewWren → System → World → World
opened n s w = record w {
  slots = n.slots;
  lists = n.lists;
  new_list = n.new_list;
  modules = n.modules;
  variables = n.variables;
  abort = none;
  method_hash = [];
  tables = update (update w.tables w.new_table []) (suc w.new_table) [];
  new_table = suc (suc w.new_table);
  registry =
      set_registry (set_registry w.registry (Light.cvm w.cvm.address) (table w.new_table))
        (Light.cvm_name w.new_name) (table (suc w.new_table));
  new_name = suc w.new_name;
  system = s;
  cvm = record {
    address = w.cvm.address;
    vm = true;
    lua = true;
    name = w.new_name;
    wren_name = none;
    array_handle = none;
    table_handle = none;
    table_entry_handle = none;
    load_module = false;
  };
}

pub vm_new-opened :
    (n : NewWren) (w : World) (s : System)
    → Vms.vm_new w.cvm.address w.system ≡ some s
    → vm_new n true w ≡ ok tt (opened n s w)
unfolding vm_new
vm_new-opened n w s runs = rw runs refl

abbrev pub wren_name_of : Value → Option String → Option String
wren_name_of (str s) old = some s
wren_name_of _ old = old

name_container-ok :
    (v : Value) (w : World)
    → w.cvm.vm ≡ true
    → name_container v w
      ≡ ok tt (record w { cvm = record w.cvm { wren_name = wren_name_of v w.cvm.wren_name } })
unfolding vm_set_wren_name
name_container-ok (str s) w valid = if_true w.cvm.vm _ _ valid
name_container-ok _ w valid = refl

default_wren_name-ok :
    (w : World)
    → w.cvm.vm ≡ true
    → default_wren_name w
      ≡ ok tt (record w {
        cvm = record w.cvm {
          wren_name = wren_name_of (w.registry Light.default_name) w.cvm.wren_name;
        };
      })
unfolding default_wren_name
default_wren_name-ok w valid =
    rw
      (name_container-ok (w.registry Light.default_name)
        (record w { stack = w.registry Light.default_name ∷ w.stack }) valid)
      refl

module _ ⦃R : Runtime⦄ where
  abbrev pub with_handler : String → Value → Table → Table
  with_handler name v t = R.raw_set t (str name) v

  add_handler-ok :
      (name global : String) (h : ℕ) (st : List Value) (u : World)
      → add_handler name global (record u { stack = table h ∷ st })
        ≡ ok tt (record u {
          stack = table h ∷ st;
          tables =
              update u.tables h
                (with_handler name (lookup (str global) (u.tables u.globals)) (u.tables h));
        })
  add_handler-ok name global h st u = refl

  abbrev wrote : ℕ → World → ℕ → Table
  wrote h u =
      update u.tables h
        (with_handler "write" (lookup (str "print") (u.tables u.globals)) (u.tables h))

  default_handlers-ok :
      (h : ℕ) (u : World)
      → u.registry (Light.cvm u.cvm.address) ≡ table h
      → default_handlers u
        ≡ ok tt (record u {
          tables =
              update
                (wrote h u)
                h
                (with_handler "error" (lookup (str "error") (wrote h u u.globals)) (wrote h u h));
        })
  default_handlers-ok h u here = rw here refl

  both_written :
      (h g : ℕ) (t : ℕ → Table)
      → g ≢ h
      → t h ≡ []
      → update (update t h (with_handler "write" (lookup (str "print") (t g)) (t h))) h (
          with_handler "error"
            (lookup
              (str "error")
              (update t h (with_handler "write" (lookup (str "print") (t g)) (t h)) g))
            (update t h (with_handler "write" (lookup (str "print") (t g)) (t h)) h))
        ≡ update t h (
            with_handler "error"
              (lookup (str "error") (t g))
              (with_handler "write" (lookup (str "print") (t g)) []))
  both_written h g t apart blank =
      let x : Table = with_handler "write" (lookup (str "print") (t g)) (t h) in
      update-update t h x _
      ∙ ap (update t h) (rw (update_self t h x, update_ne t h g x apart, blank) refl)

  -- The handlers of a new VM, which are those of Lua's own functions.
  abbrev pub lua_handlers : World → Table
  lua_handlers w =
      with_handler "error" (lookup (str "error") (w.tables w.globals))
        (with_handler "write" (lookup (str "print") (w.tables w.globals)) [])

  abbrev pub container : World → World
  container w = record w {
    stack = udata w.new_udata ∷ w.stack;
    metatables = update w.metatables w.new_udata none;
    cvm = record w.cvm { address = w.new_udata };
    new_udata = suc w.new_udata;
  }

  abbrev pub made : NewWren → System → World → World
  made n s w = record (opened n s (container w)) {
    stack = w.stack;
    base = w.base;
    tables =
        update (update (update w.tables w.new_table []) (suc w.new_table) []) w.new_table
          (lua_handlers w);
    metatables = update w.metatables w.new_udata (some w.wrenvm);
    cvm = record (opened n s (container w)).cvm {
      wren_name = wren_name_of (w.registry Light.default_name) none;
    };
  }

  pub fresh : (t : ℕ → Table) (n : ℕ) → update (update t n []) (suc n) [] n ≡ []
  fresh t n = update_ne (update t n []) (suc n) n [] (λ e. ground arith) ∙ update_self t n []

  pub older : (t : ℕ → Table) (n a : ℕ) → a < n → update (update t n []) (suc n) [] a ≡ t a
  older t n a lt =
      update_ne (update t n []) (suc n) a [] (λ e. ground arith)
      ∙ update_ne t n a [] (λ e. ground arith)

  handled :
      (n : NewWren) (s : System) (w : World)
      → w.globals < w.new_table
      → default_handlers (opened n s (container w))
        ≡ ok tt (record (opened n s (container w)) {
          tables =
              update
                (update (update w.tables w.new_table []) (suc w.new_table) [])
                w.new_table
                (lua_handlers w);
        })
  handled n s w below =
      default_handlers-ok w.new_table (opened n s (container w))
        (if_true (w.new_udata == w.new_udata) _ _ (eq_self w.new_udata))
      ∙ ap (λ t. ok tt (record (opened n s (container w)) { tables = t }))
          (both_written w.new_table w.globals
              (update (update w.tables w.new_table []) (suc w.new_table) []) (λ e. ground arith)
              (fresh w.tables w.new_table)
            ∙ ap
                (λ g.
                  update (update (update w.tables w.new_table []) (suc w.new_table) []) w.new_table
                    (with_handler "error" (lookup (str "error") g)
                      (with_handler "write" (lookup (str "print") g) [])))
                (older w.tables w.new_table w.globals below))

  pub lc_new_vm-made :
      (n : NewWren) (args : List Value) (s : System) (w : World)
      → w.globals < w.new_table
      → Vms.vm_new w.new_udata w.system ≡ some s
      → from_lua (lc_new_vm n) args w ≡ ok (udata w.new_udata ∷ []) (made n s w)
  unfolding lc_new_vm
  lc_new_vm-made n args s w below runs =
      let f : World = record w { stack = reversed args []; base = 0 } in
      rw
        (
          vm_new-opened n (container f) s runs,
          handled n s f below,
          update-update w.metatables w.new_udata none (some w.wrenvm),
          default_wren_name-ok
              (record (made n s f) {
                cvm = (opened n s (container f)).cvm;
                stack = udata w.new_udata ∷ f.stack;
              })
              refl,
        )
        refl
