-- ===== src/LuaSide/Sharing.antt =====
-- src/carrica.c, lcvmNewArray: the array that Lua gets, and what it is in Wren.
use carrica.Base.{
  ℕ, suc, ◌≡◌, ◌≢◌, refl, true, some, none, [], ◌∷◌, update, update_self, eq_self, eq_ne, update_ne,
  ◌==◌, if_true,
}
use carrica.Base.Int.{pos}
use carrica.Lua.Value.{Light, ref, udata, table}
use carrica.Lua.Api.{set_registry}
use carrica.Lua.Args.{from_lua, lual_checkvm-ok}
use carrica.Wren.Value.{Wren}
use carrica.World.{Ref, Share, share_array, World, ok}
use carrica.Reference.Object.{IsObject}
use carrica.Reference.{set_slot_array_class}
use carrica.LuaSide.Creation.{lcvm_new_array, wren_ensure_slots}

-- The world after lua_newuserdata and what goes with it.
abbrev userdata_refs : World → ℕ → Ref
userdata_refs w =
    update w.refs w.new_ref (record {
      kind = share_array;
      ref_count = pos 1;
      handle = none;
      meta = none;
      allocated = true;
    })

abbrev pub referenced : World → World
referenced w = record w {
  stack = ref w.new_ref ∷ w.stack;
  refs =
      update (userdata_refs w) w.new_ref
        (record (userdata_refs w w.new_ref) { meta = some w.sarray });
  new_ref = suc w.new_ref;
  tables = update w.tables w.new_table [];
  new_table = suc w.new_table;
  registry = set_registry w.registry (Light.ref w.new_ref) (table w.new_table);
}

pub wren_ensure_slots-ok : (w : World) → w.cvm.vm ≡ true → wren_ensure_slots w ≡ ok tt w
unfolding wren_ensure_slots
wren_ensure_slots-ok w h = if_true w.cvm.vm _ _ h

array_class-cached :
    (w : World) (h : Wren)
    → w.cvm.array_handle ≡ some h
    → set_slot_array_class 1 w
      ≡ ok tt
          (record w { slots = update w.slots 1 h; cvm = record w.cvm { array_handle = some h } })
unfolding set_slot_array_class
array_class-cached w h e = rw e refl

-- A fresh array: the reference r, of one count, with an empty table at a, and the foreign object n
-- that stands for it; the other references, tables and objects are as before.
pub record Made (k : Share) (r n a : ℕ) (w w' : World) : Type 0 where
  pub object : IsObject k n r a w'
  pub empty : w'.tables a ≡ []
  pub count : (w'.refs r).ref_count ≡ pos 1
  pub handle : (w'.refs r).handle ≡ some (Wren.foreign n)
  pub meta : (w'.refs r).meta ≡ some w'.sarray
  pub other_refs : (s : ℕ) → s ≢ r → w'.refs s ≡ w.refs s
  pub other_tables : (b : ℕ) → b ≢ a → w'.tables b ≡ w.tables b
  pub other_objects : (m : ℕ) → m ≢ n → w'.rerefs m ≡ w.rerefs m
  pub stack : w'.stack ≡ w.stack

-- The world after a new array, with the class Array c.
abbrev made : ℕ → World → World
made c w = record (referenced w) {
  stack = w.stack;
  slots = update (update w.slots 1 (Wren.unknown c)) 0 (Wren.foreign w.new_reref);
  rerefs = update w.rerefs w.new_reref (record { kind = share_array; pref = some w.new_ref });
  new_reref = suc w.new_reref;
  refs =
      update (referenced w).refs w.new_ref
        (record ((referenced w).refs w.new_ref) { handle = some (Wren.foreign w.new_reref) });
  cvm = record w.cvm { array_handle = some (Wren.unknown c) };
}

-- lcvmNewArray in a valid VM whose class Array was looked up before.
pub lcvm_new_array-Made :
    (w : World) (c : ℕ)
    → w.cvm.vm ≡ true
    → w.metatables w.cvm.address ≡ some w.wrenvm
    → w.cvm.array_handle ≡ some (Wren.unknown c)
    → (w' : World) × (from_lua lcvm_new_array (udata w.cvm.address ∷ []) w
        ≡ ok (ref w.new_ref ∷ []) w')
      × Made share_array w.new_ref w.new_reref w.new_table w w'
unfolding lcvm_new_array
lcvm_new_array-Made w c valid meta class =
    let f : World = record w { stack = udata w.cvm.address ∷ []; base = 0 } in
    (
      made c w,
      rw
          (
            lual_checkvm-ok f refl meta,
            wren_ensure_slots-ok (referenced f) valid,
            array_class-cached (referenced f) (Wren.unknown c) class,
          )
          refl,
      record {
        object = record {
          kind = rw (update_self w.rerefs w.new_reref) refl;
          pref = rw (update_self w.rerefs w.new_reref) refl;
          registered = if_true (w.new_ref == w.new_ref) _ _ (eq_self w.new_ref);
        };
        empty = update_self w.tables w.new_table [];
        count = rw (eq_self w.new_ref) refl;
        handle = rw (eq_self w.new_ref) refl;
        meta = rw (eq_self w.new_ref) refl;
        other_refs = λ s ne. rw (eq_ne s w.new_ref ne) refl;
        other_tables = λ b ne. update_ne w.tables w.new_table b [] ne;
        other_objects = λ m ne. update_ne w.rerefs w.new_reref m _ ne;
        stack = refl;
      },
    )
