-- ===== src/TableClass/Lists.antt =====
-- keys, values and list of src/cls_table.c: what the Wren list holds.
use carrica.Base.{
  ℕ, suc, ◌<◌, ◌≡◌, ◌≢◌, refl, ◌∙◌, some, List, [], ◌∷◌, ◌++◌, length, update, update_self,
  update_ne, arith, ap,
}
use carrica.Lua.Value.{Value, nil, table}
use carrica.Lua.Table.{Table, IsTable}
use carrica.Lua.Api.{T}
use carrica.Wren.Value.{Wren}
use carrica.World.{Cmd, share_table, World, ok, ◌>>◌}
use carrica.Marshal.Plain.{to_wren}
use carrica.Reference.Object.{IsSelf, push_self-ok}
use carrica.TableClass.Walk.{walk, walk_loop, list_value, tvm_keys, tvm_values, tvm_list}
use carrica.TableClass.Traversal.{Chain-all}
use carrica.TableClass.Listing.{Steps, Walked, Listed-append, list_value-Listed, walk_loop-Listed}

-- The Wren values of what passes by value, in order.
abbrev pub Lists : List Value → List Wren → Type 0
Lists [] [] = Unit {0}
Lists [] (z ∷ zs) = ⊥
Lists (v ∷ vs) [] = ⊥
Lists (v ∷ vs) (z ∷ zs) = (to_wren v ≡ some z) × Lists vs zs

abbrev pub keys : Table → List Value
keys [] = []
keys ((k, v) ∷ t) = k ∷ keys t

abbrev pub values : Table → List Value
values [] = []
values ((k, v) ∷ t) = v ∷ values t

-- [ key, value, key, value, … ]
abbrev pub entries : Table → List Value
entries [] = []
entries ((k, v) ∷ t) = k ∷ v ∷ entries t

-- A run that leaves a new list with the items zs in slot 0, and the values st on the stack.
pub record Collects (zs : List Wren) (st : List Value) (w w' : World) : Type 0 where
  pub slot : w'.slots 0 ≡ Wren.list w.new_list
  pub items : w'.lists w.new_list ≡ zs
  pub others : (m : ℕ) → m ≢ w.new_list → w'.lists m ≡ w.lists m
  pub stack : w'.stack ≡ st
  pub tables : w'.tables ≡ w.tables
  pub registry : w'.registry ≡ w.registry

-- The world at the start of the loop.
abbrev listing : ℕ → World → World
listing a w = record w {
  stack = nil ∷ table a ∷ w.stack;
  slots = update w.slots 0 (Wren.list w.new_list);
  lists = update w.lists w.new_list [];
  new_list = suc w.new_list;
}

walk-Collects :
    (body : Cmd T) {n r a : ℕ} {w : World} (zs : List Wren) (fuel : ℕ) (u : Value) (st : List Value)
    → IsSelf share_table n r a w
    → IsTable (w.tables a)
    → length (w.tables a) < fuel
    → w.stack ≡ u ∷ st
    → Walked body w.new_list (w.tables a) zs
    → (w' : World) × (walk body fuel w ≡ ok tt w') × Collects zs st w w'
unfolding walk_loop
walk-Collects body {a} {w} zs fuel u st self is enough below walked =
    let (w1, runs, listed) =
      walk_loop-Listed body a w.new_list (w.tables a) nil (w.tables a) zs fuel (listing a w) w.stack
        refl refl refl refl (Chain-all (w.tables a) is) enough walked in
    (
      record w1 { stack = st },
      rw (push_self-ok self, runs, listed.stack, below),
      record {
        slot = listed.slots 0 (omega arith);
        items = listed.items ∙ ap (λ xs. xs ++ zs) (update_self w.lists w.new_list []);
        others = λ m ne. listed.others m ne ∙ update_ne w.lists w.new_list m [] ne;
        stack = refl;
        tables = listed.tables;
        registry = listed.registry;
      },
    )

keys-Walked :
    (l : ℕ) (t : Table) (zs : List Wren) → Lists (keys t) zs → Walked (list_value 2) l t zs
keys-Walked l [] [] h = refl
keys-Walked l [] (z ∷ zs) h = absurd h
keys-Walked l ((k, v) ∷ t) [] h = absurd h
keys-Walked l ((k, v) ∷ t) (z ∷ zs) (p, h) = (
  z ∷ [],
  zs,
  refl,
  λ w st stands slot. list_value-Listed 2 l k z w (rw stands) p slot,
  keys-Walked l t zs h,
)

values-Walked :
    (l : ℕ) (t : Table) (zs : List Wren) → Lists (values t) zs → Walked (list_value 1) l t zs
values-Walked l [] [] h = refl
values-Walked l [] (z ∷ zs) h = absurd h
values-Walked l ((k, v) ∷ t) [] h = absurd h
values-Walked l ((k, v) ∷ t) (z ∷ zs) (p, h) = (
  z ∷ [],
  zs,
  refl,
  λ w st stands slot. list_value-Listed 1 l v z w (rw stands) p slot,
  values-Walked l t zs h,
)

-- Both of an entry, the key first.
both-Steps :
    (l : ℕ) (k v : Value) (y z : Wren)
    → to_wren k ≡ some y
    → to_wren v ≡ some z
    → Steps (list_value 2 >> list_value 1) l k v (y ∷ z ∷ [])
both-Steps l k v y z p q w st stands slot =
    let (w1, runs1, one) = list_value-Listed 2 l k y w (rw stands) p slot in
    let (w2, runs2, two) =
      list_value-Listed 1 l v z w1 (rw (one.stack, stands)) q (one.slots 0 (omega arith) ∙ slot) in
    (w2, rw runs1 runs2, Listed-append (y ∷ []) (z ∷ []) one two)

entries-Walked :
    (l : ℕ) (t : Table) (zs : List Wren)
    → Lists (entries t) zs
    → Walked (list_value 2 >> list_value 1) l t zs
entries-Walked l [] [] h = refl
entries-Walked l [] (z ∷ zs) h = absurd h
entries-Walked l ((k, v) ∷ t) [] h = absurd h
entries-Walked l ((k, v) ∷ t) (y ∷ []) (p, h) = absurd h
entries-Walked l ((k, v) ∷ t) (y ∷ z ∷ zs) (p, (q, h)) =
    (y ∷ z ∷ [], zs, refl, both-Steps l k v y z p q, entries-Walked l t zs h)

module _ {n r a : ℕ} {w : World} (fuel : ℕ) (u : Value) (st : List Value)
    (self : IsSelf share_table n r a w) (is : IsTable (w.tables a))
    (enough : length (w.tables a) < fuel) (below : w.stack ≡ u ∷ st) where
  -- keys of a Table whose table has distinct keys, all of which pass by value, puts in slot 0 a new
  -- list of the keys in the order of the table, given fuel for one step more than there are entries.
  -- With the table it takes the value that was on top of the stack off; other lists, the tables and
  -- the registry are as before.
  pub tvm_keys-Collects :
      (zs : List Wren)
      → Lists (keys (w.tables a)) zs
      → (w' : World) × (tvm_keys fuel w ≡ ok tt w') × Collects zs st w w'
  unfolding tvm_keys
  tvm_keys-Collects zs h =
      walk-Collects (list_value 2) zs fuel u st self is enough below
        (keys-Walked w.new_list (w.tables a) zs h)

  pub tvm_values-Collects :
      (zs : List Wren)
      → Lists (values (w.tables a)) zs
      → (w' : World) × (tvm_values fuel w ≡ ok tt w') × Collects zs st w w'
  unfolding tvm_values
  tvm_values-Collects zs h =
      walk-Collects (list_value 1) zs fuel u st self is enough below
        (values-Walked w.new_list (w.tables a) zs h)

  -- list of a Table whose table has distinct keys, where all keys and values pass by value, puts in
  -- slot 0 a new list of each key with its value behind it, in the order of the table, given fuel for
  -- one step more than there are entries. With the table it takes the value that was on top of the
  -- stack off; other lists, the tables and the registry are as before.
  pub tvm_list-Collects :
      (zs : List Wren)
      → Lists (entries (w.tables a)) zs
      → (w' : World) × (tvm_list fuel w ≡ ok tt w') × Collects zs st w w'
  unfolding tvm_list
  tvm_list-Collects zs h =
      walk-Collects (list_value 2 >> list_value 1) zs fuel u st self is enough below
        (entries-Walked w.new_list (w.tables a) zs h)
