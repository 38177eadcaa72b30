-- ===== src/Tests/TableCalls.antt =====
-- The theorems on Tables at the Table { a: 1, b: 2 }.
use carrica.Base.{
  String, ◌+◌, ◌≡◌, refl, true, false, some, none, [], ◌∷◌, update, arith, ◌==◌, if◌then◌else◌,
}
use carrica.Lua.Value.{Value, Light, nil, str, table}
use carrica.Lua.Table.{Table, IsTable}
use carrica.Wren.Value.{Wren}
use carrica.World.{World, Cvm, ok, share_table}
use carrica.Reference.Object.{IsSelf}
use carrica.TableClass.Access.{tvm_get, tvm_set}
use carrica.TableClass.Walk.{tvm_count, tvm_list}
use carrica.TableClass.Entry.{tvm_iterate, tvm_iterator_value, tevm_key, tevm_value}
use carrica.TableClass.Lookup.{Keyed, tvm_get-tvm_set}
use carrica.TableClass.Traversal.{tvm_count_lem}
use carrica.TableClass.Lists.{Collects, tvm_list-Collects}
use carrica.TableClass.Protocol.{tvm_iterator_value-tvm_iterate}
use carrica.Tests.Instance.{runtime}
use carrica.Tests.Setup.{int, wren_int, world, args}

abbrev entries : Table
entries = (str "a", int 1) ∷ (str "b", int 2) ∷ []

abbrev registry : Light → Value
registry (Light.ref n) = table (n + 1)
registry (Light.reref n) = str "a"
registry _ = nil

abbrev cvm : Cvm
cvm = record {
  address = 0;
  vm = true;
  lua = true;
  name = 0;
  wren_name = none;
  array_handle = none;
  table_handle = none;
  table_entry_handle = some (Wren.unknown 4);
  load_module = false;
}

-- The receiver is the Table, the arguments are x and y.
abbrev call : Wren → Wren → World
call x y = record (world (args (Wren.foreign 0) x y)) {
  tables = λ n. if n == 1 then entries else [];
  rerefs = λ n. record { kind = share_table; pref = some n };
  registry = registry;
  cvm = cvm;
}

call-IsSelf : (x y : Wren) → IsSelf share_table 0 0 1 (call x y)
call-IsSelf x y = record {
  slot = refl;
  object = record { kind = refl; pref = refl; registered = refl };
}

entries-IsTable : IsTable entries
entries-IsTable = (refl, refl, refl, (refl, refl, refl, tt))

call-Keyed : (s : String) (y : Wren) → Keyed 0 0 1 (str s) (call (Wren.str s) y)
call-Keyed s y = record { self = call-IsSelf (Wren.str s) y; key = refl; usable = refl }

tvm_get-tvm_set_example :
    (u w' : World) × (tvm_set (call (Wren.str "c") (wren_int 7)) ≡ ok tt u)
    × (tvm_get (record u { slots = args (Wren.foreign 0) (Wren.str "c") Wren.null }) ≡ ok tt w')
    × (w'.slots 0 ≡ wren_int 7)
tvm_get-tvm_set_example =
    tvm_get-tvm_set (int 7) (args (Wren.foreign 0) (Wren.str "c") Wren.null)
      (call-Keyed "c" (wren_int 7)) refl refl refl

tvm_count_example :
    tvm_count 3 (call Wren.null Wren.null)
    ≡ ok tt (record (call Wren.null Wren.null) {
      stack = [];
      slots = update (call Wren.null Wren.null).slots 0 (wren_int 2);
    })
tvm_count_example =
    tvm_count_lem 3 (str "code") [] (call-IsSelf Wren.null Wren.null) entries-IsTable (omega arith)
      refl

tvm_list-Collects_example :
    (w' : World) × (tvm_list 3 (call Wren.null Wren.null) ≡ ok tt w')
    × Collects
        (Wren.str "a" ∷ wren_int 1 ∷ Wren.str "b" ∷ wren_int 2 ∷ [])
        []
        (call Wren.null Wren.null)
        w'
tvm_list-Collects_example =
    tvm_list-Collects 3 (str "code") [] (call-IsSelf Wren.null Wren.null) entries-IsTable
      (omega arith) refl (Wren.str "a" ∷ wren_int 1 ∷ Wren.str "b" ∷ wren_int 2 ∷ [])
      (refl, (refl, (refl, (refl, tt))))

-- The loop is at a; its next entry is that of b.
tvm_iterator_value-tvm_iterate_example :
    (w1 w2 w3 w4 : World) × (tvm_iterate (call (Wren.bool true) Wren.null) ≡ ok tt w1)
    × (w1.slots 0 ≡ Wren.bool true)
    × (tvm_iterator_value (record w1 { slots = args (Wren.foreign 0) Wren.null Wren.null })
        ≡ ok tt w2)
    × (w2.slots 0 ≡ Wren.foreign 2)
    × (w2.stack ≡ str "code" ∷ [])
    × (tevm_key (record w2 { slots = args (Wren.foreign 2) Wren.null Wren.null }) ≡ ok tt w3)
    × (w3.slots 0 ≡ Wren.str "b")
    × (tevm_value (record w2 { slots = args (Wren.foreign 2) Wren.null Wren.null }) ≡ ok tt w4)
    × (w4.slots 0 ≡ wren_int 2)
tvm_iterator_value-tvm_iterate_example =
    tvm_iterator_value-tvm_iterate [] (str "a") (int 1) (str "b") (int 2) [] (Wren.str "b")
      (wren_int 2) (args (Wren.foreign 0) Wren.null Wren.null)
      (args (Wren.foreign 2) Wren.null Wren.null) (call-IsSelf (Wren.bool true) Wren.null)
      entries-IsTable refl refl refl refl refl refl refl refl
