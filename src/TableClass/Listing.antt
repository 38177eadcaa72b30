-- ===== src/TableClass/Listing.antt =====
-- The loop that keys, values and list of src/cls_table.c share: what it appends to a Wren list.
use carrica.Base.{
  ℕ, zero, suc, ◌<◌, ◌≡◌, ◌≢◌, refl, ◌∙◌, some, List, [], ◌∷◌, ◌++◌, length, update, update_self,
  update_ne, arith, append_assoc, append-nil, ap, sym,
}
use carrica.Lua.Value.{Value, table}
use carrica.Lua.Table.{Table, next, first}
use carrica.Lua.Api.{T, at}
use carrica.Wren.Value.{Wren}
use carrica.World.{Cmd, World, ok}
use carrica.Marshal.{wren_set_slot_from_lua}
use carrica.Marshal.Plain.{to_wren}
use carrica.TableClass.Walk.{walk_loop, list_value}
use carrica.TableClass.Traversal.{Chain, lua_next-entry, lua_next-end}

-- A run that appends zs to the list at l, and writes besides only slot 1.
pub record Listed (l : ℕ) (zs : List Wren) (w w' : World) : Type 0 where
  pub stack : w'.stack ≡ w.stack
  pub items : w'.lists l ≡ w.lists l ++ zs
  pub others : (m : ℕ) → m ≢ l → w'.lists m ≡ w.lists m
  pub slots : (i : ℕ) → i ≢ 1 → w'.slots i ≡ w.slots i
  pub tables : w'.tables ≡ w.tables
  pub registry : w'.registry ≡ w.registry

Listed-nil : (l : ℕ) (w : World) → Listed l [] w w
Listed-nil l w = record {
  stack = refl;
  items = sym (append-nil (w.lists l));
  others = λ m ne. refl;
  slots = λ i ne. refl;
  tables = refl;
  registry = refl;
}

pub Listed-append :
    {l : ℕ} (ys zs : List Wren) {u v w : World}
    → Listed l ys u v
    → Listed l zs v w
    → Listed l (ys ++ zs) u w
Listed-append {l} ys zs {u} f g = record {
  stack = g.stack ∙ f.stack;
  items = g.items ∙ ap (λ xs. xs ++ zs) f.items ∙ append_assoc (u.lists l) ys zs;
  others = λ m ne. g.others m ne ∙ f.others m ne;
  slots = λ i ne. g.slots i ne ∙ f.slots i ne;
  tables = g.tables ∙ f.tables;
  registry = g.registry ∙ f.registry;
}

-- The same from the world with another stack.
Listed-under :
    {l : ℕ} {zs : List Wren} {w w' : World} (st : List Value)
    → Listed l zs w w'
    → Listed l zs (record w { stack = st }) (record w' { stack = st })
Listed-under st h = record {
  stack = refl;
  items = h.items;
  others = h.others;
  slots = h.slots;
  tables = h.tables;
  registry = h.registry;
}

-- A step at an entry: it lists zs and leaves the stack.
abbrev pub Steps : Cmd T → ℕ → Value → Value → List Wren → Type 0
Steps body l k v zs =
    (w : World) (st : List Value)
    → w.stack ≡ v ∷ k ∷ st
    → w.slots 0 ≡ Wren.list l
    → (w' : World) × (body w ≡ ok tt w') × Listed l zs w w'

pub list_value-Listed :
    (k l : ℕ) (v : Value) (z : Wren) (w : World)
    → at k w.stack ≡ some v
    → to_wren v ≡ some z
    → w.slots 0 ≡ Wren.list l
    → (w' : World) × (list_value k w ≡ ok tt w') × Listed l (z ∷ []) w w'
unfolding wren_set_slot_from_lua
list_value-Listed k l v z w here plain slot = (
  record w { slots = update w.slots 1 z; lists = update w.lists l (w.lists l ++ z ∷ []) },
  ground arith,
  record {
    stack = refl;
    items = update_self w.lists l (w.lists l ++ z ∷ []);
    others = λ m ne. update_ne w.lists l m (w.lists l ++ z ∷ []) ne;
    slots = λ i ne. update_ne w.slots 1 i z ne;
    tables = refl;
    registry = refl;
  },
)

abbrev pub Walked : Cmd T → ℕ → Table → List Wren → Type 0
Walked body l [] zs = zs ≡ []
Walked body l ((k, v) ∷ t) zs =
    (ys rest : List Wren) × (zs ≡ ys ++ rest) × Steps body l k v ys × Walked body l t rest

pub walk_loop-Listed :
    (body : Cmd T) (a l : ℕ) (t : Table) (c : Value) (rest : Table) (zs : List Wren) (fuel : ℕ)
    (w : World) (st : List Value)
    → w.stack ≡ c ∷ table a ∷ st
    → w.slots 0 ≡ Wren.list l
    → w.tables a ≡ t
    → next c t ≡ first rest
    → Chain t rest
    → length rest < fuel
    → Walked body l rest zs
    → (w' : World) × (walk_loop body fuel w ≡ ok tt w')
      × Listed l zs (record w { stack = table a ∷ st }) w'
unfolding walk_loop
walk_loop-Listed body a l t c rest zs zero w st stands slot same goes chain lt walked =
    absurd (omega arith)
walk_loop-Listed body a l t c [] zs (suc f) w st stands slot same goes chain lt walked = (
  record w { stack = table a ∷ st },
  rw (lua_next-end a c w st stands (rw same goes)),
  rw walked (Listed-nil l (record w { stack = table a ∷ st })),
)
walk_loop-Listed body a l t c ((k, v) ∷ rest) zs (suc f) w st stands slot same goes (on, chain) lt
      (ys, zs', split, step, walked) =
    let (w1, runs1, one) =
      step (record w { stack = v ∷ k ∷ table a ∷ st }) (table a ∷ st) refl slot in
    let (w2, runs2, two) =
      walk_loop-Listed body a l t k rest zs' f (record w1 { stack = k ∷ table a ∷ st }) st refl
        (one.slots 0 (omega arith) ∙ slot) (ap (λ g. g a) one.tables ∙ same) on chain (omega arith)
        walked in
    (
      w2,
      rw (lua_next-entry a c k v w st stands (rw same goes), runs1, one.stack) runs2,
      rw split (Listed-append ys zs' (Listed-under (table a ∷ st) one) two),
    )
