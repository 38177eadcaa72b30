-- ===== src/LuaSide/Passing.antt =====
-- Shared arrays of src/carrica.c between the two languages: as an argument from Lua to Wren, and with
-- a table that Lua puts in place of the one they had.
use carrica.Base.{
  ℕ, zero, suc, ◌+◌, ◌-◌, ◌<◌, ◌^◌, ◌≡◌, ◌∙◌, ◌⊎◌, inl, inr, refl, sym, ap, true, some, List, [],
  ◌∷◌, length, get_or, update, update_self, eq_self, if_true, arith, ◌==◌,
}
use mathlib.Core.Option.{none-ne-some}
use carrica.Base.Int.{pos}
use carrica.Lua.Value.{Value, Light, nil, ref, udata, table, whole}
use carrica.Lua.Table.{IsArray}
use carrica.Lua.Api.{arg, at, at_index, set_registry}
use carrica.Lua.Runtime.{Runtime}
use carrica.Lua.Args.{from_lua}
use carrica.Wren.Value.{Wren}
use carrica.World.{share_array, World, ok, pushed}
use carrica.Marshal.{
  sarray, lua_get_meta_table_type, wren_set_slot_from_lua, lua_push_from_wren_slot,
}
use carrica.Marshal.Plain.{to_wren}
use carrica.Reference.Object.{IsObject}
use carrica.Array.Access.{avm_get}
use carrica.Array.Reads.{avm_get_lem}
use carrica.LuaSide.Objects.{lca_ref, lca_set_ref}
use carrica.LuaSide.Creation.{lcvm_new_array}
use carrica.LuaSide.Sharing.{lcvm_new_array-Made}

Nat-cases : (n : ℕ) → (n ≡ 0) ⊎ ((k : ℕ) × (n ≡ suc k))
Nat-cases zero = inl refl
Nat-cases (suc k) = inr (k, refl)

at-pushed :
    (k : ℕ) (x : Value) (st : List Value) (v : Value)
    → at k st ≡ some v
    → at (suc k) (x ∷ st) ≡ some v
at-pushed zero x st v e = absurd (none-ne-some v e)
at-pushed (suc k) x st v e = e

-- A value above does not move an argument.
at_index-pushed :
    (i base : ℕ) (x v : Value) (st : List Value)
    → at_index (arg i) base st ≡ some v
    → at_index (arg i) base (x ∷ st) ≡ some v
at_index-pushed i base x v st e = elim (Nat-cases (length st + 1 - base - i)) [
  | inl z ↦ absurd (none-ne-some v (ap (λ k. at k st) (sym z) ∙ e))
  | inr (k, z) ↦
      let up : suc (length st) + 1 - base - i ≡ suc (length st + 1 - base - i) = omega (arith, z) in
      ap (λ m. at m (x ∷ st)) up ∙ at-pushed (length st + 1 - base - i) x st v e
]

kind-array :
    (i r : ℕ) (w : World)
    → at_index (arg i) w.base w.stack ≡ some (ref r)
    → (w.refs r).meta ≡ some w.sarray
    → lua_get_meta_table_type (arg i) w
      ≡ ok (some sarray) (record w { stack = table w.sarray ∷ table w.sarray ∷ w.stack })
unfolding lua_get_meta_table_type
kind-array i r w here meta = rw (here, meta, eq_self w.sarray) refl

-- A shared array as an argument.
set_slot-ref :
    (slot i r : ℕ) (h : Wren) (w : World)
    → at_index (arg i) w.base w.stack ≡ some (ref r)
    → (w.refs r).meta ≡ some w.sarray
    → (w.refs r).handle ≡ some h
    → wren_set_slot_from_lua slot (arg i) w
      ≡ ok tt (record w {
        stack = table w.sarray ∷ table w.sarray ∷ w.stack;
        slots = update w.slots slot h;
      })
unfolding wren_set_slot_from_lua
set_slot-ref slot i r h w here meta handle =
    let under : at_index (arg i) w.base (table w.sarray ∷ table w.sarray ∷ w.stack) ≡ some (ref r) =
      at_index-pushed i w.base (table w.sarray) (ref r) (table w.sarray ∷ w.stack)
        (at_index-pushed i w.base (table w.sarray) (ref r) w.stack here) in
    rw (here, kind-array i r w here meta, under, handle) refl

lca_ref-object :
    (r a : ℕ) (w : World)
    → (w.refs r).meta ≡ some w.sarray
    → w.registry (Light.ref r) ≡ table a
    → from_lua lca_ref (ref r ∷ []) w ≡ ok (table a ∷ []) w
unfolding lca_ref
lca_ref-object r a w meta registered = rw (meta, eq_self w.sarray, registered) refl

push_slot-object :
    {n r a : ℕ} (slot : ℕ) (w : World)
    → w.slots slot ≡ Wren.foreign n
    → IsObject share_array n r a w
    → lua_push_from_wren_slot slot w ≡ ok tt (pushed (table a) w)
unfolding lua_push_from_wren_slot
push_slot-object slot w at object = rw (at, object.kind, object.pref, object.registered) refl

-- newArray in a valid VM whose class Array was looked up before gives Lua a new reference r: ref of it
-- is an empty table, it passes to Wren from any argument of any frame as the foreign object of r, and
-- what Wren passes back is the same table.
pub lcvm_new_array-lca_ref :
    (w : World) (c : ℕ)
    → w.cvm.vm ≡ true
    → w.metatables w.cvm.address ≡ some w.wrenvm
    → w.cvm.array_handle ≡ some (Wren.unknown c)
    → (w' : World) × (from_lua lcvm_new_array (udata w.cvm.address ∷ []) w
        ≡ ok (ref w.new_ref ∷ []) w')
      × (from_lua lca_ref (ref w.new_ref ∷ []) w' ≡ ok (table w.new_table ∷ []) w')
      × (w'.tables w.new_table ≡ [])
      × ((slot i base : ℕ) (st : List Value)
          → at_index (arg i) base st ≡ some (ref w.new_ref)
          → (u : World) × (wren_set_slot_from_lua slot
                (arg i)
                (record w' { stack = st; base = base })
              ≡ ok tt u)
            × (u.slots slot ≡ Wren.foreign w.new_reref)
            × (lua_push_from_wren_slot slot u ≡ ok tt (pushed (table w.new_table) u)))
unfolding lca_ref lua_push_from_wren_slot
lcvm_new_array-lca_ref w c valid meta class =
    let (w', runs, new) = lcvm_new_array-Made w c valid meta class in
    (
      w',
      runs,
      lca_ref-object w.new_ref w.new_table w' new.meta new.object.registered,
      new.empty,
      λ slot i base st here. (
        record w' {
          stack = table w'.sarray ∷ table w'.sarray ∷ st;
          base = base;
          slots = update w'.slots slot (Wren.foreign w.new_reref);
        },
        set_slot-ref slot i w.new_ref (Wren.foreign w.new_reref)
            (record w' { stack = st; base = base }) here new.meta new.handle,
        update_self w'.slots slot (Wren.foreign w.new_reref),
        push_slot-object slot
            (record w' {
              stack = table w'.sarray ∷ table w'.sarray ∷ st;
              base = base;
              slots = update w'.slots slot (Wren.foreign w.new_reref);
            })
            (update_self w'.slots slot (Wren.foreign w.new_reref))
            (record {
              kind = new.object.kind;
              pref = new.object.pref;
              registered = new.object.registered;
            }),
      ),
    )

-- setRef of a shared array with a table that is a regular array: reading the array in Wren at an
-- integer from 0 whose successor fits an int gives the item of that table there, or null past its
-- end, if it passes by value.
pub avm_get-lca_set_ref :
    ⦃R : Runtime⦄ {n r a : ℕ} {w : World} {xs : List Value} (b i : ℕ) (x : Wren)
    → IsObject share_array n r a w
    → (w.refs r).meta ≡ some w.sarray
    → IsArray (w.tables b) xs
    → suc i < 2 ^ 31
    → to_wren (get_or xs i nil) ≡ some x
    → (w' : World) × (from_lua lca_set_ref (ref r ∷ table b ∷ []) w ≡ ok [] w')
      × ((s : ℕ → Wren)
          → s 0 ≡ Wren.foreign n
          → s 1 ≡ Wren.num (whole (pos i))
          → avm_get (record w' { slots = s }) ≡ ok tt (record w' { slots = update s 0 x }))
unfolding lca_set_ref
avm_get-lca_set_ref {n} {r} {a} {w} {xs} b i x object meta is lt plain = (
  record w { registry = set_registry w.registry (Light.ref r) (table b) },
  rw (meta, eq_self w.sarray) refl,
  λ s self at.
      avm_get_lem
        (record {
          slot = self;
          object = record {
            kind = object.kind;
            pref = object.pref;
            registered = if_true (r == r) _ _ (eq_self r);
          };
        })
        is i x at lt plain,
)
