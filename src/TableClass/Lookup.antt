-- ===== src/TableClass/Lookup.antt =====
-- [_], [_]=(_) and containsKey of src/cls_table.c, as lookups in the table of the receiver.
use carrica.Base.{
  ℕ, ◌≡◌, ◌∙◌, refl, true, Option, none, some, not, ◌∷◌, update, update_self, arith, if◌then◌else◌,
}
use carrica.Lua.Value.{Value, num, str, table, value_eq, is_nil, is_key}
use carrica.Lua.Equality.{eq_self_key}
use carrica.Lua.Table.{lookup, IsTable}
use carrica.Lua.Runtime.{Runtime}
use carrica.Wren.Value.{Wren}
use carrica.World.{share_table, World, ok, pushed}
use carrica.Marshal.Plain.{from_wren, push_slot-plain, to_wren, set_slot-top}
use carrica.Reference.Object.{IsSelf, push_self-ok}
use carrica.Array.Items.{OnlyTable, only_table}
use carrica.TableClass.Access.{tvm_get, tvm_set, tvm_contains_key, with_key}
use carrica.Lua.Api.{T}
use carrica.World.{Cmd}
use carrica.Base.{String}

-- The key of a Table that a Wren value is: a text or a number.
abbrev pub key_of : Wren → Option Value
key_of (Wren.str s) = some (str s)
key_of (Wren.num n) = some (num n)
key_of _ = none

with_key-ok :
    (found : Cmd T) (err : String) (k : Value) (w : World)
    → key_of (w.slots 1) ≡ some k
    → with_key found err w ≡ found (pushed k w)
with_key-ok found err k w h = ground arith

-- A world in which the receiver is a Table whose table is at address a, and slot 1 has a key.
pub record Keyed (n r a : ℕ) (k : Value) (w : World) : Type 0 where
  pub self : IsSelf share_table n r a w
  pub key : key_of (w.slots 1) ≡ some k
  pub usable : is_key k ≡ true

module _ {n r a : ℕ} {k : Value} {w : World} (at : Keyed n r a k w) where
  -- The value of the key, if it passes by value, is in slot 0; the table of the receiver stays on
  -- the stack.
  pub tvm_get_lem :
      (x : Wren)
      → to_wren (lookup k (w.tables a)) ≡ some x
      → tvm_get w ≡ ok tt (record w { stack = table a ∷ w.stack; slots = update w.slots 0 x })
  unfolding tvm_get
  tvm_get_lem x plain = rw (
    push_self-ok at.self,
    with_key-ok _ _ k (pushed (table a) w) at.key,
    set_slot-top 0 (lookup k (w.tables a)) x (pushed (lookup k (w.tables a)) (pushed (table a) w))
        (table a ∷ w.stack) refl plain,
  )

  pub tvm_contains_key_lem :
      tvm_contains_key w
      ≡ ok tt (record w {
        stack = table a ∷ w.stack;
        slots = update w.slots 0 (Wren.bool (not (is_nil (lookup k (w.tables a)))));
      })
  unfolding tvm_contains_key
  tvm_contains_key_lem = rw (push_self-ok at.self, with_key-ok _ _ k (pushed (table a) w) at.key)

module _ ⦃R : Runtime⦄ {n r a : ℕ} {k : Value} {w : World} (at : Keyed n r a k w) where
  pub tvm_set_run :
      (v : Value)
      → from_wren (w.slots 2) ≡ some v
      → tvm_set w ≡ ok tt (record w { tables = update w.tables a (R.raw_set (w.tables a) k v) })
  unfolding tvm_set
  tvm_set_run v plain = rw (
    push_self-ok at.self,
    with_key-ok _ _ k (pushed (table a) w) at.key,
    push_slot-plain 2 v (pushed k (pushed (table a) w)) plain,
    at.usable,
  )

  -- [k]=(v) of a value that passes by value, at a text or a number that is not NaN, in a Table whose
  -- table has distinct keys, makes v the value of k and leaves that of every other key; null is the
  -- value of a key that is not there. The keys stay distinct; the stack, the slots, the other tables
  -- and the registry are as before.
  pub tvm_set-lookup :
      (v : Value)
      → from_wren (w.slots 2) ≡ some v
      → IsTable (w.tables a)
      → (w' : World) × (tvm_set w ≡ ok tt w')
        × ((j : Value)
            → lookup j (w'.tables a) ≡ (if value_eq j k then v else lookup j (w.tables a)))
        × IsTable (w'.tables a)
        × OnlyTable a w w'
        × (w'.slots ≡ w.slots)
  tvm_set-lookup v plain is = (
    record w { tables = update w.tables a (R.raw_set (w.tables a) k v) },
    tvm_set_run v plain,
    λ j. rw (update_self w.tables a) (R.lookup-raw_set (w.tables a) k v j at.usable),
    rw (update_self w.tables a) (R.raw_set-IsTable (w.tables a) k v at.usable is),
    only_table w a _,
    refl,
  )

  -- The world after [k]=(v), with the slots that Wren has written since.
  abbrev after_set : Value → (ℕ → Wren) → World
  after_set v s = record w { tables = update w.tables a (R.raw_set (w.tables a) k v); slots = s }

  after_set-Keyed :
      (v : Value) (s : ℕ → Wren) → s 0 ≡ w.slots 0 → s 1 ≡ w.slots 1 → Keyed n r a k (after_set v s)
  after_set-Keyed v s receiver key = record {
    self = record {
      slot = receiver ∙ at.self.slot;
      object = record {
        kind = at.self.object.kind;
        pref = at.self.object.pref;
        registered = at.self.object.registered;
      };
    };
    key = rw key at.key;
    usable = at.usable;
  }

  after_set-lookup : (v : Value) (s : ℕ → Wren) → lookup k ((after_set v s).tables a) ≡ v
  after_set-lookup v s = rw (
    update_self w.tables a,
    R.lookup-raw_set (w.tables a) k v k at.usable,
    eq_self_key k at.usable,
  )

to_wren-from_wren : (x : Wren) {v : Value} → from_wren x ≡ some v → to_wren v ≡ some x
to_wren-from_wren x h = ground arith

-- [k] after [k]=(v), at the same text or number that is not NaN and whatever Wren writes to the other
-- slots between the two, gives v back, if v passes by value.
pub tvm_get-tvm_set :
    ⦃R : Runtime⦄ {n r a : ℕ} {k : Value} {w : World} (v : Value) (s : ℕ → Wren)
    → Keyed n r a k w
    → from_wren (w.slots 2) ≡ some v
    → s 0 ≡ w.slots 0
    → s 1 ≡ w.slots 1
    → (u w' : World) × (tvm_set w ≡ ok tt u)
      × (tvm_get (record u { slots = s }) ≡ ok tt w')
      × (w'.slots 0 ≡ w.slots 2)
tvm_get-tvm_set ⦃R⦄ {a} {k} {w} v s at plain receiver key = (
  record w { tables = update w.tables a (R.raw_set (w.tables a) k v) },
  record (after_set at v s) { stack = table a ∷ w.stack; slots = update s 0 (w.slots 2) },
  tvm_set_run at v plain,
  tvm_get_lem (after_set-Keyed at v s receiver key) (w.slots 2)
      (rw (after_set-lookup at v s) (to_wren-from_wren (w.slots 2) plain)),
  refl,
)

-- containsKey after [k]=(v) tells whether v is not null, and leaves the table on the stack.
pub tvm_contains_key-tvm_set :
    ⦃R : Runtime⦄ {n r a : ℕ} {k : Value} {w : World} (v : Value) (s : ℕ → Wren)
    → Keyed n r a k w
    → from_wren (w.slots 2) ≡ some v
    → s 0 ≡ w.slots 0
    → s 1 ≡ w.slots 1
    → (u w' : World) × (tvm_set w ≡ ok tt u)
      × (tvm_contains_key (record u { slots = s }) ≡ ok tt w')
      × (w'.slots 0 ≡ Wren.bool (not (is_nil v)))
      × (w'.stack ≡ table a ∷ w.stack)
tvm_contains_key-tvm_set ⦃R⦄ {a} {k} {w} v s at plain receiver key = (
  record w { tables = update w.tables a (R.raw_set (w.tables a) k v) },
  record (after_set at v s) {
    stack = table a ∷ w.stack;
    slots = update s 0 (Wren.bool (not (is_nil v)));
  },
  tvm_set_run at v plain,
  rw (tvm_contains_key_lem (after_set-Keyed at v s receiver key), after_set-lookup at v s),
  refl,
  refl,
)
