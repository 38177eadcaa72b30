-- ===== src/Array/Appends.antt =====
-- The operations of src/cls_array.c that append: addAll at a list and at an Array.
use carrica.Base.{
  ℕ, suc, ◌≡◌, ◌≢◌, ◌∙◌, refl, false, some, List, [], ◌∷◌, ◌++◌, length, get_elem?, update,
  update_self, update_ne, append_assoc, append-nil, sym, length-snoc, get_elem?-middle,
}
use carrica.Lua.Value.{Value, table, is_nil}
use carrica.Lua.Table.{int_key, IsArray}
use carrica.Lua.Runtime.{Runtime}
use carrica.Lua.Api.{lua_pop}
use carrica.Wren.Value.{Wren}
use carrica.World.{share_array, World, ok, pushed}
use carrica.Marshal.Plain.{from_wren, push_slot-plain}
use carrica.Reference.Object.{IsSelf, push_self-ok}
use carrica.Array.Items.{
  IsArray-objlen, IsArray-append, OnlyTable, OnlyTable-refl, OnlyTable-trans, OnlyTable-slots,
}
use carrica.Array.Build.{add_list_loop, avm_add_all}

-- The Lua values, none of them nil, of a list of Wren values that all pass by value.
abbrev pub Passes : List Wren → List Value → Type 0
Passes [] [] = Unit {0}
Passes [] (v ∷ vs) = ⊥
Passes (z ∷ zs) [] = ⊥
Passes (z ∷ zs) (v ∷ vs) = (from_wren z ≡ some v) × (is_nil v ≡ false) × Passes zs vs

-- A run that appends to the table at a: the stack is as before, and besides the table at most
-- slot 2 changes.
pub record Appends (a : ℕ) (xs : List Value) (w w' : World) : Type 0 where
  pub items : IsArray (w'.tables a) xs
  pub only : OnlyTable a w w'
  pub slots : (i : ℕ) → i ≢ 2 → w'.slots i ≡ w.slots i

only_slot_2 : (w : World) (z : Wren) (i : ℕ) → i ≢ 2 → update w.slots 2 z i ≡ w.slots i
only_slot_2 w z i ne = update_ne w.slots 2 i z ne

-- One item appended, by a step that leaves the world w1, and then the others.
Appends-cons :
    {a : ℕ} (xs vs : List Value) (v : Value) {w w1 w2 : World}
    → OnlyTable a w w1
    → ((i : ℕ) → i ≢ 2 → w1.slots i ≡ w.slots i)
    → Appends a ((xs ++ v ∷ []) ++ vs) w1 w2
    → Appends a (xs ++ v ∷ vs) w w2
Appends-cons xs vs v one slots more = record {
  items = rw (append_assoc xs (v ∷ []) vs) at more.items;
  only = OnlyTable-trans one more.only;
  slots = λ i ne. more.slots i ne ∙ slots i ne;
}

module _ ⦃R : Runtime⦄ (a l : ℕ) where
  -- The world after one round of the loop over a list.
  abbrev list_round : World → Wren → ℕ → Value → World
  list_round w z p v = record w {
    slots = update w.slots 2 z;
    tables = update w.tables a (R.raw_set (w.tables a) (int_key (suc p)) v);
  }

  add_list_loop-step :
      (k c p : ℕ) (z : Wren) (v : Value) (w : World) (st : List Value)
      → w.stack ≡ table a ∷ st
      → w.slots 1 ≡ Wren.list l
      → get_elem? (w.lists l) c ≡ some z
      → from_wren z ≡ some v
      → add_list_loop (suc k) c p w ≡ add_list_loop k (suc c) (suc p) (list_round w z p v)
  unfolding add_list_loop
  add_list_loop-step k c p z v w st top slot at plain =
      rw (slot, at, push_slot-plain 2 v (record w { slots = update w.slots 2 z }) plain, top)

  add_list_loop-Appends :
      (done zs : List Wren) (xs vs : List Value) (w : World) (st : List Value)
      → w.stack ≡ table a ∷ st
      → w.slots 1 ≡ Wren.list l
      → w.lists l ≡ done ++ zs
      → IsArray (w.tables a) xs
      → Passes zs vs
      → (w' : World) × (add_list_loop (length zs) (length done) (length xs) w ≡ ok tt w')
        × Appends a (xs ++ vs) w w'
  unfolding add_list_loop
  add_list_loop-Appends done [] xs [] w st top slot at is passes = (
    w,
    refl,
    record { items = rw append-nil is; only = OnlyTable-refl a w; slots = λ i ne. refl },
  )
  add_list_loop-Appends done [] xs (v ∷ vs) w st top slot at is passes = absurd passes
  add_list_loop-Appends done (z ∷ zs) xs [] w st top slot at is passes = absurd passes
  add_list_loop-Appends done (z ∷ zs) xs (v ∷ vs) w st top slot at is (p, nn, ps) =
      let (w', runs, appends) =
        add_list_loop-Appends (done ++ z ∷ []) zs (xs ++ v ∷ []) vs (list_round w z (length xs) v)
          st top slot (at ∙ sym (append_assoc done (z ∷ []) zs))
          (rw (update_self w.tables a) (IsArray-append v is nn)) ps in
      (
        w',
        add_list_loop-step (length zs) (length done) (length xs) z v w st top slot
              (rw at (get_elem?-middle done z zs)) p
            ∙ rw (length-snoc done z, length-snoc xs v) at runs,
        Appends-cons xs vs v (OnlyTable-slots a w _ _) (only_slot_2 w z) appends,
      )

lua_pop-one :
    (v : Value) (st : List Value) (w : World)
    → w.stack ≡ v ∷ st
    → lua_pop 1 w ≡ ok tt (record w { stack = st })
lua_pop-one v st w e = rw e

-- The table of the receiver is taken off the stack again.
Appends-pop :
    {a : ℕ} {xs : List Value} {v : Value} {w w1 : World}
    → Appends a xs (pushed v w) w1
    → Appends a xs w (record w1 { stack = w.stack })
Appends-pop h = record {
  items = h.items;
  only = record {
    stack = refl;
    others = h.only.others;
    registry = h.only.registry;
    refs = h.only.refs;
    rerefs = h.only.rerefs;
    lists = h.only.lists;
    abort = h.only.abort;
  };
  slots = h.slots;
}

module _ ⦃R : Runtime⦄ {n r a l : ℕ} {w : World} {xs : List Value}
    (self : IsSelf share_array n r a w) (is : IsArray (w.tables a) xs) where
  -- addAll of a Wren list whose items all pass by value, none of them null, to a regular array
  -- appends those items in order. The stack, the other tables, the registry and all slots but slot 2
  -- are as before.
  pub avm_add_all-list :
      {zs : List Wren} (vs : List Value)
      → w.slots 1 ≡ Wren.list l
      → w.lists l ≡ zs
      → Passes zs vs
      → (w' : World) × (avm_add_all w ≡ ok tt w') × Appends a (xs ++ vs) w w'
  unfolding avm_add_all
  avm_add_all-list {zs} vs slot at passes =
      let (w1, runs, appends) =
        add_list_loop-Appends a l [] zs xs vs (pushed (table a) w) w.stack refl slot at is passes in
      (
        record w1 { stack = w.stack },
        rw (push_self-ok self, slot, slot, at, IsArray-objlen is, runs)
            (lua_pop-one (table a) w.stack w1 appends.only.stack),
        Appends-pop appends,
      )
