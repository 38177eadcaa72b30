-- ===== src/LuaSide/Library/Session.antt =====
-- From luaopen_carrica of src/carrica.c to the first VM.
use carrica.Base.{
  ℕ, suc, ◌<◌, ◌≡◌, ◌≢◌, ◌∙◌, refl, ap, String, true, false, List, [], ◌∷◌, update, update_self,
  update_ne, if_false, arith,
}
use carrica.Lua.Value.{Value, Light, nil, str, func, table, udata, bool, value_eq}
use carrica.Lua.Table.{lookup}
use carrica.Lua.Runtime.{Runtime, returned}
use carrica.Lua.Args.{from_lua}
use carrica.World.{World, ok}
use carrica.Callbacks.{vm_write_fn}
use carrica.Lifecycle.{NewWren}
use carrica.Lifecycle.Fresh.{vm_write_fn-lc_new_vm}
use carrica.LuaSide.Containers.{lc_new_vm}
use carrica.LuaSide.VmMethods.{lcvm_is_valid}
use carrica.LuaSide.Library.{lfunc, lcvmfunc, lctfunc, lcafunc, luaopen_carrica}
use carrica.LuaSide.Library.Loaded.{
  library, loaded, with_sort, in_globals, metas, metas_two, with_sort-older, luaopen_carrica-loaded,
}
use carrica.LuaSide.Library.Metatables.{meta_table, in_registry, in_registry-older, in_registry-own}
use carrica.LuaSide.Library.Functions.{
  In, IsMeta, with_gc, meta_table-lcvmfunc, meta_table-lctfunc, meta_table-lcafunc, lookup-library,
}
use carrica.LuaSide.Library.{wrenvm_name, stable_name, sarray_name}
use carrica.Vms.{System, self_mod}
use carrica.Vms.Shared.{IsSystem}
use carrica.Vms.Release.{vm_begin-IsSystem}

module _ ⦃R : Runtime⦄ (cfunction : String → ℕ) where
  -- The library is the table at c and a global, with its functions; there are three metatables with
  -- their functions; the sort function is that of Lua's table t; there is one shared module and no VM.
  -- The other globals and the stack are as before.
  pub record Loads (source : String) (c t : ℕ) (w w' : World) : Type 0 where
    pub functions :
        (name f : String) → In name f lfunc → lookup (str name) (w'.tables c) ≡ func (cfunction f)
    pub global : lookup (str "carrica") (w'.tables w'.globals) ≡ table c
    pub vms : IsMeta cfunction (with_gc lcvmfunc "lcvmGC") w'.wrenvm (w'.tables w'.wrenvm)
    pub tables : IsMeta cfunction (with_gc lctfunc "lctGC") w'.stable (w'.tables w'.stable)
    pub arrays : IsMeta cfunction (with_gc lcafunc "lcaGC") w'.sarray (w'.tables w'.sarray)
    pub sort : w'.registry Light.sort_ref ≡ lookup (str "sort") (w.tables t)
    pub system : IsSystem (self_mod source ∷ []) [] w'.system
    pub globals :
        (name : String)
        → value_eq (str name) (str "carrica") ≡ false
        → lookup (str name) (w'.tables w'.globals) ≡ lookup (str name) (w.tables w.globals)
    pub below : w'.globals < w'.new_table
    pub stack : w'.stack ≡ w.stack

  in_globals-keeps :
      (w : World) (a : ℕ)
      → a ≢ w.globals
      → a < w.new_table
      → (in_globals cfunction w).tables a ≡ w.tables a
  in_globals-keeps w a other lt =
      update_ne (library cfunction w) w.new_table a _ (λ e. ground arith)
      ∙ update_ne (update w.tables w.new_table []) w.globals a _ other
      ∙ update_ne w.tables w.new_table a [] (λ e. ground arith)

  in_globals-own :
      (w : World)
      → w.globals < w.new_table
      → (in_globals cfunction w).tables w.globals
        ≡ R.raw_set (w.tables w.globals) (str "carrica") (table w.new_table)
  in_globals-own w below =
      update_ne (library cfunction w) w.new_table w.globals _ (λ e. ground arith)
      ∙ update_self (update w.tables w.new_table []) w.globals _
      ∙ ap (λ x. R.raw_set x (str "carrica") (table w.new_table))
          (update_ne w.tables w.new_table w.globals [] (λ e. ground arith))

  module _ (t : ℕ) (w : World) (below : w.globals < w.new_table) where
    -- The metatables are as they were made.
    loaded-meta :
        (a : ℕ)
        → w.globals < a
        → a < suc (suc (suc w.new_table))
        → (loaded cfunction t w).tables a ≡ (metas cfunction w).tables a
    loaded-meta a above lt =
        in_globals-keeps (with_sort cfunction t (metas cfunction w)) a (λ e. ground arith)
          (omega arith)
        ∙ update_ne (metas cfunction w).tables (suc (suc (suc w.new_table))) a []
            (λ e. ground arith)

    loaded-globals :
        (loaded cfunction t w).tables w.globals
        ≡ R.raw_set (w.tables w.globals) (str "carrica") (table (suc (suc (suc (suc w.new_table)))))
    loaded-globals =
        in_globals-own (with_sort cfunction t (metas cfunction w)) (omega arith)
        ∙ ap (λ x. R.raw_set x (str "carrica") (table (suc (suc (suc (suc w.new_table))))))
            (with_sort-older cfunction w w.globals below)

    first_meta :
        (loaded cfunction t w).tables w.new_table
        ≡ meta_table cfunction lcvmfunc "lcvmGC" w.new_table
    first_meta =
        loaded-meta w.new_table below (omega arith)
        ∙ in_registry-older cfunction sarray_name lcafunc "lcaGC" (metas_two cfunction w)
            w.new_table (omega arith)
        ∙ in_registry-older cfunction stable_name lctfunc "lctGC"
            (in_registry cfunction wrenvm_name lcvmfunc "lcvmGC" w) w.new_table (omega arith)
        ∙ in_registry-own cfunction wrenvm_name lcvmfunc "lcvmGC" w

    second_meta :
        (loaded cfunction t w).tables (suc w.new_table)
        ≡ meta_table cfunction lctfunc "lctGC" (suc w.new_table)
    second_meta =
        loaded-meta (suc w.new_table) (omega arith) (omega arith)
        ∙ in_registry-older cfunction sarray_name lcafunc "lcaGC" (metas_two cfunction w)
            (suc w.new_table) (omega arith)
        ∙ in_registry-own cfunction stable_name lctfunc "lctGC"
            (in_registry cfunction wrenvm_name lcvmfunc "lcvmGC" w)

    third_meta :
        (loaded cfunction t w).tables (suc (suc w.new_table))
        ≡ meta_table cfunction lcafunc "lcaGC" (suc (suc w.new_table))
    third_meta =
        loaded-meta (suc (suc w.new_table)) (omega arith) (omega arith)
        ∙ in_registry-own cfunction sarray_name lcafunc "lcaGC" (metas_two cfunction w)

  loaded-Loads :
      (t : ℕ) (w : World) (source : String) (s : System)
      → w.globals < w.new_table
      → t < w.new_table
      → IsSystem (self_mod source ∷ []) [] s
      → Loads source
          (suc (suc (suc (suc w.new_table))))
          t
          w
          (record (loaded cfunction t (record w { system = s })) { stack = w.stack; base = w.base })
  loaded-Loads t w source s below here is =
      let v : World = record w { system = s } in
      record {
        functions = λ name f at.
            ap (lookup (str name)) (
              update_self (library cfunction (with_sort cfunction t (metas cfunction v)))
                (suc (suc (suc (suc w.new_table)))) _)
            ∙ lookup-library cfunction _ name f at;
        global =
            ap (lookup (str "carrica")) (loaded-globals t v below)
            ∙ R.lookup-raw_set (w.tables w.globals) (str "carrica")
                (table (suc (suc (suc (suc w.new_table))))) (str "carrica") refl;
        vms = rw (first_meta t v below) (meta_table-lcvmfunc cfunction w.new_table);
        tables = rw (second_meta t v below) (meta_table-lctfunc cfunction (suc w.new_table));
        arrays = rw (third_meta t v below) (meta_table-lcafunc cfunction (suc (suc w.new_table)));
        sort = ap (lookup (str "sort")) (with_sort-older cfunction v t here);
        system = is;
        globals = λ name other.
            ap (lookup (str name)) (loaded-globals t v below)
            ∙ R.lookup-raw_set (w.tables w.globals) (str "carrica")
                (table (suc (suc (suc (suc w.new_table))))) (str name) refl
            ∙ if_false _ _ _ other;
        below = omega arith;
        stack = refl;
      }

  module _ (source : String) (args : List Value) (t : ℕ) (w : World)
      (below : w.globals < w.new_table) (here : t < w.new_table)
      (library_there : lookup (str "table") (w.tables w.globals) ≡ table t)
      (new : lookup (str "carrica") (w.tables w.globals) ≡ nil) where
    -- In a Lua whose globals are no table made later, whose global table is one of its tables, and
    -- which has no global carrica, luaopen_carrica with any arguments returns the table of the library,
    -- which is the global carrica: every function of the library is under its name in it, and those of
    -- VMs, shared tables and shared arrays in three metatables that are their own index. The sort
    -- function is that of the global table; the system has well-formed tables with the library's own
    -- module and no VM; the other globals and the stack are as before.
    pub luaopen_carrica-Loads :
        (w' : World) × (from_lua (luaopen_carrica cfunction source) args w
          ≡ ok (table (suc (suc (suc (suc w.new_table)))) ∷ []) w')
        × Loads source (suc (suc (suc (suc w.new_table)))) t w w'
    luaopen_carrica-Loads =
        let (s, begins, is) = vm_begin-IsSystem source in
        (
          _,
          luaopen_carrica-loaded cfunction source args t s w below library_there new begins,
          loaded-Loads t w source s below here is,
        )

    -- In a Lua whose globals are no table made later, whose global table is one of its tables, which has
    -- no global carrica and whose print is a function: after luaopen_carrica and newVM, with any
    -- arguments, both of which return, isValid of the VM is true and text that Wren prints goes to print;
    -- when it returns, the stack is as before.
    pub vm_write_fn-luaopen_carrica :
        (n : NewWren) (more : List Value) (f : ℕ)
        → lookup (str "print") (w.tables w.globals) ≡ func f
        → (w1 w2 : World) × (from_lua (luaopen_carrica cfunction source) args w
            ≡ ok (table (suc (suc (suc (suc w.new_table)))) ∷ []) w1)
          × (from_lua (lc_new_vm n) more w1 ≡ ok (udata w1.new_udata ∷ []) w2)
          × (from_lua lcvm_is_valid (udata w1.new_udata ∷ []) w2 ≡ ok (bool true ∷ []) w2)
          × ((text : String) (vs : List Value) (u : World)
              → R.call f
                  (str text ∷ [])
                  (record w2 { stack = func f ∷ table w1.new_table ∷ w2.stack })
                ≡ returned vs u
              → vm_write_fn text w2 ≡ ok tt (record u { stack = w2.stack }))
    vm_write_fn-luaopen_carrica n more f print =
        let (w1, opens, loads) = luaopen_carrica-Loads in
        let (w2, runs, valid, writes) =
          vm_write_fn-lc_new_vm w1 n loads.system more f loads.below
            (loads.globals "print" refl ∙ print) in
        (w1, w2, opens, runs, valid, writes)
