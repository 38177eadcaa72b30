-- ===== src/LuaSide/Sorting.antt =====
-- lcSetSortFunc of src/carrica.c, with avmSort of src/cls_array.c.
use carrica.Base.{ℕ, ◌≡◌, refl, List, [], ◌∷◌}
use carrica.Lua.Value.{Value, Light, func, table}
use carrica.Lua.Runtime.{Runtime, returned}
use carrica.Lua.Api.{set_registry}
use carrica.Lua.Args.{from_lua}
use carrica.Array.Access.{avm_sort}
use carrica.LuaSide.VmMethods.{lc_set_sort_func}
use carrica.Reference.Object.{IsObject, push_self-ok}
use carrica.Wren.Value.{Wren}
use carrica.World.{World, share_array, ok}

module _ ⦃R : Runtime⦄ (f : ℕ) (w : World) where
  -- setSortFunc(f) returns nothing; then sort of an Array, at whatever place in Wren, calls f with the
  -- table of the Array, and when f returns, so does sort, and the stack is as before.
  pub avm_sort-lc_set_sort_func :
      (w' : World) × (from_lua lc_set_sort_func (func f ∷ []) w ≡ ok [] w')
      × ((n r a : ℕ) (slots : ℕ → Wren) (vs : List Value) (u : World)
          → slots 0 ≡ Wren.foreign n
          → IsObject share_array n r a w
          → R.call f (table a ∷ []) (record w' { slots = slots }) ≡ returned vs u
          → avm_sort (record w' { slots = slots }) ≡ ok tt (record u { stack = w.stack }))
  unfolding lc_set_sort_func avm_sort
  avm_sort-lc_set_sort_func = (
    _,
    refl,
    λ n r a slots vs u receiver object ran.
        rw
          (
            push_self-ok
                {w = record w {
                  stack = func f ∷ w.stack;
                  registry = set_registry w.registry Light.sort_ref (func f);
                  slots = slots;
                }}
                (record {
                  slot = receiver;
                  object = record {
                    kind = object.kind;
                    pref = object.pref;
                    registered = object.registered;
                  };
                }),
            ran,
          )
          refl,
  )
