-- ===== src/LuaSide/Library/Loaded.antt =====
-- luaopen_carrica of src/carrica.c: what Lua has after it.
use carrica.Base.{
  ℕ, suc, ◌<◌, ◌≡◌, ◌∙◌, refl, ap, String, some, List, [], ◌∷◌, update, update_ne, arith,
}
use carrica.Lua.Value.{Value, Light, nil, str, table}
use carrica.Lua.Table.{Table, lookup}
use carrica.Lua.Runtime.{Runtime}
use carrica.Lua.Api.{
  set_registry, lua_pop, lua_pushlightuserdata, lua_newtable, lua_settable_registry, lua_getglobal,
  lua_getfield,
}
use carrica.Lua.Args.{from_lua, leave, reversed}
use carrica.LuaSide.Library.{
  Reg, MetaName, wrenvm_name, stable_name, sarray_name, lual_register, lua_newmeta, lfunc, lcvmfunc,
  lctfunc, lcafunc, library_table, luaopen_carrica, open_library,
}
use carrica.LuaSide.Library.Metatables.{
  registered, lual_register-registered, in_registry, lua_newmeta-in_registry, in_registry-older,
}
use carrica.Lifecycle.{stored_system}
use carrica.Vms.{System, vm_begin}
use carrica.World.{World, Cmd, ok, pure, and_then, ◌>>◌}

module _ ⦃R : Runtime⦄ (cfunction : String → ℕ) where
  -- The table of the library, as the value of its global.
  abbrev pub library : World → ℕ → Table
  library w =
      update (update w.tables w.new_table []) w.globals
        (R.raw_set (update w.tables w.new_table [] w.globals) (str "carrica") (table w.new_table))

  abbrev pub in_globals : World → World
  in_globals w = record w {
    stack = table w.new_table ∷ w.stack;
    new_table = suc w.new_table;
    tables = update (library w) w.new_table (registered cfunction lfunc (library w w.new_table));
  }

  abbrev last_part : Cmd ℕ
  last_part = do library_table cfunction; lual_register cfunction lfunc; pure 1

  abbrev middle_part : Cmd ℕ
  middle_part = do
    lua_pushlightuserdata Light.emit_ref
    lua_newtable
    lua_settable_registry
    lua_getglobal "table"
    lua_pushlightuserdata Light.sort_ref
    lua_getfield 2 "sort"
    lua_settable_registry
    lua_pop 1
    last_part

  abbrev meta_part : MetaName → List Reg → String → Cmd ℕ → Cmd ℕ
  meta_part m l gc next = lua_newmeta cfunction m l (some gc) >> next

  abbrev first_part : Cmd ℕ
  first_part =
      meta_part wrenvm_name lcvmfunc "lcvmGC"
        (meta_part stable_name lctfunc "lctGC" (meta_part sarray_name lcafunc "lcaGC" middle_part))

  pub library-in_globals :
      (w : World)
      → lookup (str "carrica") (w.tables w.globals) ≡ nil
      → last_part w ≡ ok 1 (in_globals w)
  library-in_globals w new =
      rw
        (
          new,
          lual_register-registered cfunction lfunc w.new_table w.stack
              (record w { tables = library w; new_table = suc w.new_table }),
        )
        refl

  abbrev pub with_sort : ℕ → World → World
  with_sort t w = record w {
    tables = update w.tables w.new_table [];
    new_table = suc w.new_table;
    registry =
        set_registry (set_registry w.registry Light.emit_ref (table w.new_table)) Light.sort_ref
          (lookup (str "sort") (update w.tables w.new_table [] t));
  }

  sort-with_sort :
      (t : ℕ) (w : World)
      → lookup (str "table") (update w.tables w.new_table [] w.globals) ≡ table t
      → middle_part w ≡ last_part (with_sort t w)
  sort-with_sort t w here = rw here refl

  abbrev pub metas : World → World
  metas w = in_registry cfunction sarray_name lcafunc "lcaGC" (
      in_registry cfunction stable_name lctfunc "lctGC"
        (in_registry cfunction wrenvm_name lcvmfunc "lcvmGC" w))

  meta_part-in_registry :
      (m : MetaName) (l : List Reg) (gc : String) (next : Cmd ℕ) (w : World)
      → meta_part m l gc next w ≡ next (in_registry cfunction m l gc w)
  meta_part-in_registry m l gc next w =
      ap (λ r. and_then r (λ _. next)) (lua_newmeta-in_registry cfunction m l gc w)

  first_part-metas : (w : World) → first_part w ≡ middle_part (metas w)
  first_part-metas w =
      meta_part-in_registry wrenvm_name lcvmfunc "lcvmGC" _ w
      ∙ meta_part-in_registry stable_name lctfunc "lctGC" _
          (in_registry cfunction wrenvm_name lcvmfunc "lcvmGC" w)
      ∙ meta_part-in_registry sarray_name lcafunc "lcaGC" middle_part (
          in_registry cfunction stable_name lctfunc "lctGC"
            (in_registry cfunction wrenvm_name lcvmfunc "lcvmGC" w))

  abbrev pub metas_two : World → World
  metas_two w =
      in_registry cfunction stable_name lctfunc "lctGC"
        (in_registry cfunction wrenvm_name lcvmfunc "lcvmGC" w)

  pub metas-older : (w : World) (a : ℕ) → a < w.new_table → (metas w).tables a ≡ w.tables a
  metas-older w a lt =
      in_registry-older cfunction sarray_name lcafunc "lcaGC" (metas_two w) a (omega arith)
      ∙ in_registry-older cfunction stable_name lctfunc "lctGC"
          (in_registry cfunction wrenvm_name lcvmfunc "lcvmGC" w) a (omega arith)
      ∙ in_registry-older cfunction wrenvm_name lcvmfunc "lcvmGC" w a lt

  pub with_sort-older :
      (w : World) (a : ℕ)
      → a < w.new_table
      → update (metas w).tables (suc (suc (suc w.new_table))) [] a ≡ w.tables a
  with_sort-older w a lt =
      update_ne (metas w).tables (suc (suc (suc w.new_table))) a [] (λ e. ground arith)
      ∙ metas-older w a lt

  abbrev pub loaded : ℕ → World → World
  loaded t w = in_globals (with_sort t (metas w))

  open_library-loaded :
      (t : ℕ) (w : World)
      → w.globals < w.new_table
      → lookup (str "table") (w.tables w.globals) ≡ table t
      → lookup (str "carrica") (w.tables w.globals) ≡ nil
      → open_library cfunction w ≡ ok 1 (loaded t w)
  unfolding open_library
  open_library-loaded t w below library_there new =
      first_part-metas w
      ∙ sort-with_sort t (metas w)
          (ap (lookup (str "table")) (with_sort-older w w.globals below) ∙ library_there)
      ∙ library-in_globals (with_sort t (metas w))
          (ap (lookup (str "carrica")) (with_sort-older w w.globals below) ∙ new)

  pub luaopen_carrica-loaded :
      (source : String) (args : List Value) (t : ℕ) (s : System) (w : World)
      → w.globals < w.new_table
      → lookup (str "table") (w.tables w.globals) ≡ table t
      → lookup (str "carrica") (w.tables w.globals) ≡ nil
      → vm_begin source ≡ some s
      → from_lua (luaopen_carrica cfunction source) args w
        ≡ ok
            (table (suc (suc (suc (suc w.new_table)))) ∷ [])
            (record (loaded t (record w { system = s })) { stack = w.stack; base = w.base })
  unfolding luaopen_carrica
  luaopen_carrica-loaded source args t s w below library_there new begins =
      let f : World = record w { stack = reversed args []; base = 0 } in
      ap (λ o. leave w (and_then (stored_system o f) (λ _. open_library cfunction))) begins
      ∙ ap (leave w) (open_library-loaded t (record f { system = s }) below library_there new)
