-- ===== src/TableClass/Protocol.antt =====
-- The iterator protocol of src/cls_table.c, from iterate over iteratorValue to key and value of the
-- entry.
use carrica.Base.{
  ℕ, suc, ◌≡◌, ◌∙◌, refl, true, false, some, List, [], ◌∷◌, ◌++◌, append_assoc, update, eq_self,
}
use carrica.Lua.Value.{Value, Light, nil, table}
use carrica.Lua.Equality.{next-entry, lookup-entry}
use carrica.Lua.Table.{Table, IsTable, lookup, next, entry, finished}
use carrica.Lua.Api.{set_registry}
use carrica.Wren.Value.{Wren}
use carrica.World.{share_table, World, ok, pushed}
use carrica.Marshal.Plain.{to_wren, set_slot-top}
use carrica.Reference.Object.{IsSelf, push_self-ok}
use carrica.TableClass.Entry.{
  iterate_step, tvm_iterate, tvm_iterator_value, tevm_key, tevm_value, set_slot_entry_class,
  blank_entry,
}
use carrica.TableClass.Traversal.{lua_next-entry, lua_next-end}

-- The world after an iteration has gone on to key k.
abbrev pub iterated : ℕ → Value → World → World
iterated n k w = record w {
  slots = update w.slots 0 (Wren.bool true);
  registry = set_registry w.registry (Light.reref n) k;
}

iterate_step-entry :
    (n a : ℕ) (c k v : Value) (w : World)
    → next c (w.tables a) ≡ entry k v
    → iterate_step n (pushed c (pushed (table a) w)) ≡ ok tt (iterated n k w)
iterate_step-entry n a c k v w at =
    rw (lua_next-entry a c k v (pushed c (pushed (table a) w)) w.stack refl at)

iterate_step-end :
    (n a : ℕ) (c u : Value) (w : World) (st : List Value)
    → next c (w.tables a) ≡ finished
    → w.stack ≡ u ∷ st
    → iterate_step n (pushed c (pushed (table a) w))
      ≡ ok tt (record w { stack = st; slots = update w.slots 0 (Wren.bool false) })
iterate_step-end n a c u w st at below =
    rw (lua_next-end a c (pushed c (pushed (table a) w)) w.stack refl at, below)

module _ {n r a : ℕ} {w : World} (self : IsSelf share_table n r a w) where
  iterate-begin :
      w.slots 1 ≡ Wren.null → tvm_iterate w ≡ iterate_step n (pushed nil (pushed (table a) w))
  unfolding tvm_iterate
  iterate-begin slot = rw (self.slot, push_self-ok self, slot)

  iterate-on :
      w.slots 1 ≡ Wren.bool true
      → tvm_iterate w ≡ iterate_step n (pushed (w.registry (Light.reref n)) (pushed (table a) w))
  unfolding tvm_iterate
  iterate-on slot = rw (self.slot, push_self-ok self, slot)

  pub tvm_iterate-first :
      (k v : Value) (rest : Table)
      → w.slots 1 ≡ Wren.null
      → w.tables a ≡ (k, v) ∷ rest
      → tvm_iterate w ≡ ok tt (iterated n k w)
  tvm_iterate-first k v rest slot is = iterate-begin slot ∙ iterate_step-entry n a nil k v w (rw is)

  pub tvm_iterate-entry :
      (done : Table) (k v j u : Value) (rest : Table)
      → w.slots 1 ≡ Wren.bool true
      → w.registry (Light.reref n) ≡ k
      → w.tables a ≡ done ++ (k, v) ∷ (j, u) ∷ rest
      → IsTable (w.tables a)
      → tvm_iterate w ≡ ok tt (iterated n j w)
  tvm_iterate-entry done k v j u rest slot last at is =
      iterate-on slot
      ∙ iterate_step-entry n a (w.registry (Light.reref n)) j u w
          (rw (last, at) (next-entry done k v ((j, u) ∷ rest) (rw at at is)))

  pub tvm_iterate-last :
      (done : Table) (k v u : Value) (st : List Value)
      → w.slots 1 ≡ Wren.bool true
      → w.registry (Light.reref n) ≡ k
      → w.tables a ≡ done ++ (k, v) ∷ []
      → IsTable (w.tables a)
      → w.stack ≡ u ∷ st
      → tvm_iterate w ≡ ok tt (record w { stack = st; slots = update w.slots 0 (Wren.bool false) })
  tvm_iterate-last done k v u st slot last at is below =
      iterate-on slot
      ∙ iterate_step-end n a (w.registry (Light.reref n)) u w st
          (rw (last, at) (next-entry done k v [] (rw at at is))) below

-- The world after iteratorValue at key k with value v.
abbrev pub entry_made : Value → Value → Wren → World → World
entry_made k v c w = record w {
  slots = update (update w.slots 1 c) 0 (Wren.foreign w.new_reref);
  rerefs = update w.rerefs w.new_reref blank_entry;
  new_reref = suc w.new_reref;
  registry =
      set_registry (set_registry w.registry (Light.reref_pref w.new_reref) v)
        (Light.reref w.new_reref) k;
}

pub tvm_iterator_value_run :
    {n r a c : ℕ} {w : World} (k : Value)
    → IsSelf share_table n r a w
    → w.registry (Light.reref n) ≡ k
    → w.cvm.table_entry_handle ≡ some (Wren.unknown c)
    → tvm_iterator_value w ≡ ok tt (entry_made k (lookup k (w.tables a)) (Wren.unknown c) w)
unfolding tvm_iterator_value set_slot_entry_class
tvm_iterator_value_run k self last class = rw (self.slot, push_self-ok self, last, class)

behind-entry :
    (done : Table) (k v j u : Value) (rest : Table)
    → IsTable (done ++ (k, v) ∷ (j, u) ∷ rest)
    → lookup j (done ++ (k, v) ∷ (j, u) ∷ rest) ≡ u
behind-entry done k v j u rest is = rw (append_assoc done ((k, v) ∷ []) ((j, u) ∷ rest)) at (
    lookup-entry (done ++ (k, v) ∷ []) j u rest
      (rw (append_assoc done ((k, v) ∷ []) ((j, u) ∷ rest)) is))

tevm_key_run :
    {m : ℕ} (w : World) {k : Value} (x : Wren)
    → w.slots 0 ≡ Wren.foreign m
    → w.registry (Light.reref m) ≡ k
    → to_wren k ≡ some x
    → tevm_key w ≡ ok tt (record w { slots = update w.slots 0 x })
unfolding tevm_key
tevm_key_run w {k} x slot at plain =
    rw (slot, at, set_slot-top 0 k x (pushed k w) w.stack refl plain)

tevm_value_run :
    {m : ℕ} (w : World) {v : Value} (x : Wren)
    → w.slots 0 ≡ Wren.foreign m
    → w.registry (Light.reref_pref m) ≡ v
    → to_wren v ≡ some x
    → tevm_value w ≡ ok tt (record w { slots = update w.slots 0 x })
unfolding tevm_value
tevm_value_run w {v} x slot at plain =
    rw (slot, at, set_slot-top 0 v x (pushed v w) w.stack refl plain)

-- A step of a for loop over a Table that is at key k, with the entry of j behind it: iterate answers
-- true, iteratorValue then gives a new entry in slot 0, whose key is j and whose value is the value
-- of j, and the stack is as before. Conditions: the keys of the table are distinct, key and value
-- pass by value, the class TableEntry was looked up before, and Wren passes the receiver and the
-- entry in slot 0, which s and s' are the slots for.
pub tvm_iterator_value-tvm_iterate :
    {n r a c : ℕ} {w : World} (done : Table) (k v j u : Value) (rest : Table) (x y : Wren)
    (s s' : ℕ → Wren)
    → IsSelf share_table n r a w
    → IsTable (w.tables a)
    → w.tables a ≡ done ++ (k, v) ∷ (j, u) ∷ rest
    → w.slots 1 ≡ Wren.bool true
    → w.registry (Light.reref n) ≡ k
    → w.cvm.table_entry_handle ≡ some (Wren.unknown c)
    → to_wren j ≡ some x
    → to_wren u ≡ some y
    → s 0 ≡ Wren.foreign n
    → s' 0 ≡ Wren.foreign w.new_reref
    → (w1 w2 w3 w4 : World) × (tvm_iterate w ≡ ok tt w1)
      × (w1.slots 0 ≡ Wren.bool true)
      × (tvm_iterator_value (record w1 { slots = s }) ≡ ok tt w2)
      × (w2.slots 0 ≡ Wren.foreign w.new_reref)
      × (w2.stack ≡ w.stack)
      × (tevm_key (record w2 { slots = s' }) ≡ ok tt w3)
      × (w3.slots 0 ≡ x)
      × (tevm_value (record w2 { slots = s' }) ≡ ok tt w4)
      × (w4.slots 0 ≡ y)
tvm_iterator_value-tvm_iterate {n} {r} {a} {c} {w} done k v j u rest x y s s' self is at slot last
      class p q here there =
    let w1 : World = record (iterated n j w) { slots = s } in
    let w2 : World = entry_made j (lookup j (w.tables a)) (Wren.unknown c) w1 in
    let found = behind-entry done k v j u rest (rw at at is) in
    (
      iterated n j w,
      w2,
      record w2 { slots = update s' 0 x },
      record w2 { slots = update s' 0 y },
      tvm_iterate-entry self done k v j u rest slot last at is,
      refl,
      tvm_iterator_value_run j
          (record {
            slot = here;
            object = record {
              kind = self.object.kind;
              pref = self.object.pref;
              registered = self.object.registered;
            };
          })
          (rw (eq_self n)) class,
      refl,
      refl,
      tevm_key_run (record w2 { slots = s' }) x there (rw (eq_self w.new_reref)) p,
      refl,
      tevm_value_run (record w2 { slots = s' }) y there (rw (eq_self w.new_reref, at) found) q,
      refl,
    )
