-- ===== src/LuaSide/Library/Metatables.antt =====
-- lua_newmeta of src/carrica.c: the metatable that it leaves in the registry.
use carrica.Base.{
  ℕ, suc, ◌<◌, ◌≡◌, ◌∙◌, refl, ap, String, some, List, [], ◌∷◌, update, update_self, update_ne,
  update-update, arith,
}
use carrica.Lua.Value.{Value, str, func, table}
use carrica.Lua.Table.{Table}
use carrica.Lua.Runtime.{Runtime}
use carrica.Lua.Api.{lua_pushvalue, lua_pop}
use carrica.LuaSide.Handlers.Installing.{update_own}
use carrica.LuaSide.Library.{
  Reg, MetaName, wrenvm_name, stable_name, sarray_name, named_as, lua_setfield, lual_register,
  set_gc, lua_newmeta,
}
use carrica.World.{World, ok, ◌>>◌}

written_twice :
    (f : ℕ → Table) (a : ℕ) (x : Table) (g : Table → Table)
    → update (update f a x) a (g (update f a x a)) ≡ update f a (g x)
written_twice f a x g =
    update-update f a x (g (update f a x a)) ∙ ap (λ y. update f a (g y)) (update_self f a x)

written_again :
    (f : ℕ → Table) (a : ℕ) (x : Table) (g h : Table → Table)
    → update
        (update (update f a x) a (g (update f a x a)))
        a
        (h (update (update f a x) a (g (update f a x a)) a))
      ≡ update f a (h (g x))
written_again f a x g h =
    ap (λ k. update k a (h (k a))) (written_twice f a x g) ∙ written_twice f a (g x) h

module _ ⦃R : Runtime⦄ (cfunction : String → ℕ) where
  -- A table after the functions of a list are set in it.
  abbrev pub registered : List Reg → Table → Table
  registered [] t = t
  registered ((name, f) ∷ l) t = registered l (R.raw_set t (str name) (func (cfunction f)))

  pub lual_register-registered :
      (l : List Reg) (a : ℕ) (st : List Value) (w : World)
      → lual_register cfunction l (record w { stack = table a ∷ st })
        ≡ ok tt (record w {
          stack = table a ∷ st;
          tables = update w.tables a (registered l (w.tables a));
        })
  unfolding lual_register
  lual_register-registered [] a st w = rw (update_own w.tables a) refl
  lual_register-registered ((name, f) ∷ l) a st w =
      let t : Table = R.raw_set (w.tables a) (str name) (func (cfunction f)) in
      lual_register-registered l a st (record w { tables = update w.tables a t })
      ∙ ap (λ g. ok tt (record w { stack = table a ∷ st; tables = g }))
          (update-update w.tables a t _
            ∙ ap (λ x. update w.tables a (registered l x)) (update_self w.tables a t))

  -- A metatable that is its own index, with the functions of a list and the one that collects.
  abbrev pub meta_table : List Reg → String → ℕ → Table
  meta_table l gc a =
      R.raw_set (registered l (R.raw_set [] (str "__index") (table a))) (str "__gc")
        (func (cfunction gc))

  filled :
      (l : List Reg) (gc : String) (a : ℕ) (st : List Value) (w : World)
      → w.tables a ≡ []
      → (lua_pushvalue 1
            >> (lua_setfield cfunction "__index"
                >> (lual_register cfunction l >> (set_gc cfunction (some gc) >> lua_pop 1))))
          (record w { stack = table a ∷ st })
        ≡ ok tt (record w { stack = st; tables = update w.tables a (meta_table l gc a) })
  filled l gc a st w blank =
      let t : Table = R.raw_set (w.tables a) (str "__index") (table a) in
      rw (lual_register-registered l a st (record w { tables = update w.tables a t })) (
        ap (λ g. ok tt (record w { stack = st; tables = g }))
          (written_again w.tables a t (registered l)
              (λ x. R.raw_set x (str "__gc") (func (cfunction gc)))
            ∙ ap
                (λ x. update w.tables a (
                  R.raw_set (registered l (R.raw_set x (str "__index") (table a))) (str "__gc")
                    (func (cfunction gc))))
                blank))

  abbrev pub in_registry : MetaName → List Reg → String → World → World
  in_registry m l gc w = named_as m w.new_table (record w {
    tables = update (update w.tables w.new_table []) w.new_table (meta_table l gc w.new_table);
    new_table = suc w.new_table;
  })

  pub lua_newmeta-in_registry :
      (m : MetaName) (l : List Reg) (gc : String) (w : World)
      → lua_newmeta cfunction m l (some gc) w ≡ ok tt (in_registry m l gc w)
  unfolding lua_newmeta
  lua_newmeta-in_registry wrenvm_name l gc w =
      filled l gc w.new_table w.stack
        (record w {
          wrenvm = w.new_table;
          tables = update w.tables w.new_table [];
          new_table = suc w.new_table;
        })
        (update_self w.tables w.new_table [])
  lua_newmeta-in_registry stable_name l gc w =
      filled l gc w.new_table w.stack
        (record w {
          stable = w.new_table;
          tables = update w.tables w.new_table [];
          new_table = suc w.new_table;
        })
        (update_self w.tables w.new_table [])
  lua_newmeta-in_registry sarray_name l gc w =
      filled l gc w.new_table w.stack
        (record w {
          sarray = w.new_table;
          tables = update w.tables w.new_table [];
          new_table = suc w.new_table;
        })
        (update_self w.tables w.new_table [])

  older_than : (f : ℕ → Table) (a n : ℕ) (x : Table) → a < n → update (update f n []) n x a ≡ f a
  older_than f a n x lt =
      update_ne (update f n []) n a x (λ e. ground arith) ∙ update_ne f n a [] (λ e. ground arith)

  pub in_registry-older :
      (m : MetaName) (l : List Reg) (gc : String) (w : World) (a : ℕ)
      → a < w.new_table
      → (in_registry m l gc w).tables a ≡ w.tables a
  in_registry-older wrenvm_name l gc w a lt =
      older_than w.tables a w.new_table (meta_table l gc w.new_table) lt
  in_registry-older stable_name l gc w a lt =
      older_than w.tables a w.new_table (meta_table l gc w.new_table) lt
  in_registry-older sarray_name l gc w a lt =
      older_than w.tables a w.new_table (meta_table l gc w.new_table) lt

  pub in_registry-own :
      (m : MetaName) (l : List Reg) (gc : String) (w : World)
      → (in_registry m l gc w).tables w.new_table ≡ meta_table l gc w.new_table
  in_registry-own wrenvm_name l gc w = update_self (update w.tables w.new_table []) w.new_table _
  in_registry-own stable_name l gc w = update_self (update w.tables w.new_table []) w.new_table _
  in_registry-own sarray_name l gc w = update_self (update w.tables w.new_table []) w.new_table _
