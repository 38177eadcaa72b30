-- ===== src/Array/Listing.antt =====
-- avmList of src/cls_array.c, and its way back by addAll.
use carrica.Base.{
  ℕ, suc, arith, ◌<◌, false, ◌≡◌, ◌≢◌, ◌∙◌, refl, sym, ap, some, List, [], ◌∷◌, ◌++◌, length,
  update, update_self, update_ne, append_assoc, append-nil, length-snoc, get_or, get_or-middle,
}
use carrica.Lua.Value.{Value, nil, table, is_nil}
use carrica.Lua.Table.{int_key, lookup, IsArray}
use carrica.Lua.Runtime.{Runtime}
use carrica.Wren.Value.{Wren}
use carrica.World.{share_array, World, ok}
use carrica.Marshal.Plain.{to_wren, from_wren, AllPlain, set_slot-top}
use carrica.Reference.Object.{IsSelf, push_self-ok}
use carrica.Array.Items.{IsArray-objlen}
use carrica.Array.Appends.{Passes, Appends, avm_add_all-list}
use carrica.Array.Build.{list_loop, avm_list, avm_add_all}

-- A run that only writes to slot 1 and to the list at l, which is then zs.
pub record Collects (l : ℕ) (zs : List Wren) (w w' : World) : Type 0 where
  pub list : w'.lists l ≡ zs
  pub slots : (i : ℕ) → i ≢ 1 → w'.slots i ≡ w.slots i
  pub stack : w'.stack ≡ w.stack
  pub tables : w'.tables ≡ w.tables
  pub others : (b : ℕ) → b ≢ l → w'.lists b ≡ w.lists b

module _ (a l : ℕ) where
  abbrev round : World → Wren → World
  round w z = record w {
    slots = update w.slots 1 z;
    lists = update w.lists l (w.lists l ++ z ∷ []);
  }

  list_loop-step :
      (k i : ℕ) (v : Value) (z : Wren) (w : World) (st : List Value)
      → w.stack ≡ table a ∷ st
      → w.slots 0 ≡ Wren.list l
      → lookup (int_key (suc i)) (w.tables a) ≡ v
      → to_wren v ≡ some z
      → list_loop (suc k) i w ≡ list_loop k (suc i) (round w z)
  unfolding list_loop
  list_loop-step k i v z w st top slot item plain =
      rw
        (
          top,
          item,
          set_slot-top 1 v z (record w { stack = v ∷ table a ∷ st }) (table a ∷ st) refl plain,
          slot,
        )
        refl

  list_loop-Collects :
      (done vs : List Value) (ys zs : List Wren) (w : World) (st : List Value)
      → w.stack ≡ table a ∷ st
      → w.slots 0 ≡ Wren.list l
      → w.lists l ≡ ys
      → IsArray (w.tables a) (done ++ vs)
      → AllPlain vs zs
      → (w' : World) × (list_loop (length vs) (length done) w ≡ ok tt w')
        × Collects l (ys ++ zs) w w'
  unfolding list_loop
  list_loop-Collects done [] ys [] w st top slot at is plain = (
    w,
    refl,
    record {
      list = at ∙ sym (append-nil ys);
      slots = λ i ne. refl;
      stack = refl;
      tables = refl;
      others = λ b ne. refl;
    },
  )
  list_loop-Collects done [] ys (z ∷ zs) w st top slot at is plain = absurd plain
  list_loop-Collects done (v ∷ vs) ys [] w st top slot at is plain = absurd plain
  list_loop-Collects done (v ∷ vs) ys (z ∷ zs) w st top slot at is (p, ps) =
      let (w', runs, more) =
        list_loop-Collects (done ++ v ∷ []) vs (ys ++ z ∷ []) zs (round w z) st top slot
          (update_self w.lists l (w.lists l ++ z ∷ []) ∙ ap (λ us. us ++ z ∷ []) at)
          (rw (append_assoc done (v ∷ []) vs) is) ps in
      (
        w',
        list_loop-step (length vs) (length done) v z w st top slot
              (is.item (length done) ∙ get_or-middle done v vs nil) p
            ∙ rw (length-snoc done v) at runs,
        record {
          list = more.list ∙ append_assoc ys (z ∷ []) zs;
          slots = λ i ne. more.slots i ne ∙ update_ne w.slots 1 i z ne;
          stack = more.stack;
          tables = more.tables;
          others = λ b ne. more.others b ne ∙ update_ne w.lists l b _ ne;
        },
      )

module _ ⦃R : Runtime⦄ {n r a : ℕ} {w : World} {xs : List Value} (self : IsSelf share_array n r a w)
    (is : IsArray (w.tables a) xs) where
  -- list of a regular array whose items all pass by value gives a new Wren list of these items in
  -- order. The tables, the other lists and all slots but the first two are as before; the table of the
  -- array stays on the stack of Lua.
  pub avm_list-Collects :
      (zs : List Wren)
      → AllPlain xs zs
      → (w' : World) × (avm_list w ≡ ok tt w')
        × (w'.slots 0 ≡ Wren.list w.new_list)
        × (w'.lists w.new_list ≡ zs)
        × (w'.tables ≡ w.tables)
        × ((b : ℕ) → b ≢ w.new_list → w'.lists b ≡ w.lists b)
        × (w'.stack ≡ table a ∷ w.stack)
  unfolding avm_list
  avm_list-Collects zs plain =
      let v : World = record w {
        stack = table a ∷ w.stack;
        slots = update w.slots 0 (Wren.list w.new_list);
        lists = update w.lists w.new_list [];
        new_list = suc w.new_list;
      } in
      let (w', runs, collects) =
        list_loop-Collects a w.new_list [] xs [] zs v w.stack refl (update_self w.slots 0 _)
          (update_self w.lists w.new_list []) is plain in
      (
        w',
        rw (push_self-ok self, IsArray-objlen is, runs),
        collects.slots 0 (λ e. ground arith) ∙ update_self w.slots 0 _,
        collects.list,
        collects.tables,
        λ b ne. collects.others b ne ∙ update_ne w.lists w.new_list b [] ne,
        collects.stack,
      )

from_wren-to_wren : (v : Value) (z : Wren) → to_wren v ≡ some z → from_wren z ≡ some v
from_wren-to_wren v z p = ground arith

AllPlain-Passes :
    (xs : List Value) (zs : List Wren)
    → ((i : ℕ) → i < length xs → is_nil (get_or xs i nil) ≡ false)
    → AllPlain xs zs
    → Passes zs xs
AllPlain-Passes [] [] full plain = tt
AllPlain-Passes [] (z ∷ zs) full plain = absurd plain
AllPlain-Passes (v ∷ vs) [] full plain = absurd plain
AllPlain-Passes (v ∷ vs) (z ∷ zs) full (p, ps) = (
  from_wren-to_wren v z p,
  full 0 (omega arith),
  AllPlain-Passes vs zs (λ i lt. full (suc i) (omega arith)) ps,
)

-- list of a regular array whose items all pass by value returns a Wren list in slot 0; addAll of this
-- list to a regular array, at whatever place in Wren where the list is as it was, appends the items of
-- the first array in order; the stack, the other tables, the registry and all slots but slot 2 are then
-- as they were before addAll.
pub avm_add_all-avm_list :
    ⦃R : Runtime⦄ {n r a : ℕ} {w : World} {xs : List Value} (zs : List Wren)
    → IsSelf share_array n r a w
    → IsArray (w.tables a) xs
    → AllPlain xs zs
    → (l : ℕ) × (w' : World) × (avm_list w ≡ ok tt w')
      × (w'.slots 0 ≡ Wren.list l)
      × ((m q b : ℕ) (ys : List Value) (u : World)
          → IsSelf share_array m q b u
          → IsArray (u.tables b) ys
          → u.slots 1 ≡ Wren.list l
          → u.lists l ≡ w'.lists l
          → (u' : World) × (avm_add_all u ≡ ok tt u') × Appends b (ys ++ xs) u u')
avm_add_all-avm_list {w} {xs} zs self is plain =
    let (w', runs, slot, held, tables, others, stack) = avm_list-Collects self is zs plain in
    (
      w.new_list,
      w',
      runs,
      slot,
      λ m q b ys u other there arg same.
          avm_add_all-list other there xs arg (same ∙ held) (AllPlain-Passes xs zs is.no_nil plain),
    )
