-- ===== src/Tests/LuaCalls.antt =====
-- The theorems on the functions that Lua calls and on the output of Wren, at two shared arrays and two
-- handlers.
use carrica.Base.{
  suc, ◌+◌, ◌*◌, true, none, ℕ, ◌≡◌, refl, String, false, some, [], ◌∷◌, List, update, arith, inr,
  if◌then◌else◌,
}
use carrica.Base.Int.{ℤ, pos}
use carrica.Lua.Value.{nil, Value, str, func, table, ref, udata, value_eq}
use carrica.Lua.Table.{Table, lookup}
use carrica.Lua.Api.{T, arg, top, at_index, lua_push}
use carrica.Lua.Args.{from_lua, reversed}
use carrica.Wren.Value.{Wren, w_string}
use carrica.World.{Cmd, World, ok, fault, pushed, share_array}
use carrica.Marshal.{sarray, wren_slot_is_lua_safe, lua_push_from_wren_slot, wren_set_slot_from_lua}
use carrica.Marshal.Safety.{returns, wren_slot_is_lua_safe-lua_push_from_wren_slot}
use carrica.Reference.{vm_hold, vm_release}
use carrica.Reference.Object.{IsObject}
use carrica.Array.Access.{avm_get, avm_sort}
use carrica.Host.{hvm_ref}
use carrica.Host.Refs.{IsHost, referenced}
use carrica.LuaSide.Objects.{lua_free, lca_ref, lca_set_ref}
use carrica.LuaSide.Creation.{lcvm_new_array}
use carrica.LuaSide.Passing.{lcvm_new_array-lca_ref, avm_get-lca_set_ref}
use carrica.LuaSide.Alive.{Alive}
use carrica.LuaSide.VmMethods.{lc_set_sort_func}
use carrica.LuaSide.Sorting.{avm_sort-lc_set_sort_func}
use carrica.LuaSide.Debug.{
  Emitter, no_emitter, emit_debug, lc_set_debug_emit, lc_emit_debug,
  lc_emit_debug-lc_set_debug_emit,
}
use carrica.LuaSide.Methods.Freeing.{call_method-lcvm_free_method}
use carrica.Marshal.Types.{Passed, wren_set_slot_from_lua-type}
use carrica.LuaSide.Steps.{
  Steps, done, step, lua_hold, lua_gc, wren_hold, wren_release, Steps-Alive,
}
use carrica.LuaSide.Handlers.{lcvm_handler, is_function_value}
use carrica.LuaSide.Handlers.Installing.{lcvm_handler-table, hvm_ref-lcvm_handler}
use carrica.Callbacks.{vm_load_module, own_modules}
use carrica.Modules.{contents, find_module}
use carrica.Lua.Runtime.{Runtime, returned}
use carrica.LuaSide.Scripts.{lcvm_set_load_function}
use carrica.LuaSide.Scripts.LoadFunction.{vm_load_module-lcvm_set_load_function}
use carrica.LuaSide.Methods.{call_method, lcvm_get_method, lcvm_free_method}
use carrica.LuaSide.Methods.Calling.{filled, call_method-lcvm_get_method}
use carrica.Wren.Api.{wren_set_slot}
use carrica.Marshal.Plain.{AllPlain, from_wren}
use carrica.Tests.Instance.{runtime}
use carrica.Tests.Setup.{int, wren_int, world, args}
use carrica.Tests.Arrays.{second-IsArray}

abbrev start : World
start = world (args (Wren.foreign 0) Wren.null Wren.null)

wren_slot_is_lua_safe-lua_push_from_wren_slot_example :
    wren_slot_is_lua_safe 0 start ≡ ok (returns (lua_push_from_wren_slot 0 start)) start
wren_slot_is_lua_safe-lua_push_from_wren_slot_example =
    wren_slot_is_lua_safe-lua_push_from_wren_slot 0 start

-- The array 0 after holds from Lua and Wren, a release, and a collection.
abbrev counted : World → ℕ → World
counted w n = record w { refs = update w.refs 0 (record (w.refs 0) { ref_count = pos n }) }

abbrev collected : World
collected = lua_free 0 (counted (counted (counted (counted start 2) 3) 2) 1)

collected-Steps : Steps 0 start collected
unfolding vm_hold vm_release
collected-Steps = step (lua_hold sarray (ref 0) refl) (
    step (wren_hold refl)
      (step (wren_release refl) (step (lua_gc sarray 0 (inr (0, refl)) refl) done)))

-- Wren's hold of what Lua has freed does not return.
hold-collected : vm_hold collected ≡ fault
unfolding vm_hold
hold-collected = refl

Steps-Alive_example : Alive 0 collected
Steps-Alive_example = Steps-Alive 0 collected-Steps ((1, refl), (1, refl))

abbrev with_class : World
with_class = record start { cvm = record start.cvm { array_handle = some (Wren.unknown 0) } }

lcvm_new_array-lca_ref_example :
    (w' : World) × (from_lua lcvm_new_array (udata 0 ∷ []) with_class ≡ ok (ref 2 ∷ []) w')
    × (from_lua lca_ref (ref 2 ∷ []) w' ≡ ok (table 3 ∷ []) w')
    × (w'.tables 3 ≡ [])
    × ((slot i base : ℕ) (st : List Value)
        → at_index (arg i) base st ≡ some (ref 2)
        → (u : World) × (wren_set_slot_from_lua slot (arg i) (record w' { stack = st; base = base })
            ≡ ok tt u)
          × (u.slots slot ≡ Wren.foreign 2)
          × (lua_push_from_wren_slot slot u ≡ ok tt (pushed (table 3) u)))
lcvm_new_array-lca_ref_example = lcvm_new_array-lca_ref with_class 0 refl refl refl

start-IsObject : IsObject share_array 0 0 1 start
start-IsObject = record { kind = refl; pref = refl; registered = refl }

avm_get-lca_set_ref_example :
    (w' : World) × (from_lua lca_set_ref (ref 0 ∷ table 2 ∷ []) start ≡ ok [] w')
    × ((s : ℕ → Wren)
        → s 0 ≡ Wren.foreign 0
        → s 1 ≡ wren_int 0
        → avm_get (record w' { slots = s })
          ≡ ok tt (record w' { slots = update s 0 (wren_int 40) }))
avm_get-lca_set_ref_example =
    avm_get-lca_set_ref 2 0 (wren_int 40) start-IsObject refl (second-IsArray Wren.null Wren.null)
      (omega arith) refl

start-IsHost : IsHost 0 start
start-IsHost = record { valid = refl; handlers = refl }

abbrev given : Table
given = (str "draw", func 9) ∷ (int 1, int 5) ∷ []

abbrev with_table : World
with_table = record start { tables = update start.tables 5 given }

lcvm_handler-table_example :
    (t : Table) × (from_lua (lcvm_handler 3) (udata 0 ∷ table 5 ∷ []) with_table
      ≡ ok [] (record with_table { tables = update with_table.tables 0 t }))
    × ((name : String)
        → lookup (str name) t ≡ (
            if is_function_value (lookup (str name) given)
            then lookup (str name) given
            else lookup (str name) (with_table.tables 0)))
lcvm_handler-table_example =
    lcvm_handler-table 3 (record { valid = refl; handlers = refl }) refl 5 (omega arith)
      (refl, refl, refl, (refl, refl, refl, tt)) (omega arith)

hvm_ref-lcvm_handler_example :
    (w' : World) × (from_lua (lcvm_handler 1) (udata 0 ∷ str "draw" ∷ func 9 ∷ []) start ≡ ok [] w')
    × ((other : String)
        → value_eq (str other) (str "draw") ≡ false
        → lookup (str other) (w'.tables 0) ≡ lookup (str other) (start.tables 0))
    × ((slots : ℕ → Wren)
        → slots 1 ≡ Wren.str "draw"
        → hvm_ref (record w' { slots = slots })
          ≡ ok tt (referenced 0 (func 9) (record w' { slots = slots })))
hvm_ref-lcvm_handler_example = hvm_ref-lcvm_handler 1 start-IsHost refl "draw" 9

-- A Lua whose functions answer with a text.
abbrev answering : Runtime
answering = record runtime { call = λ f args w. returned (str "var x = 1" ∷ []) w }

vm_load_module-lcvm_set_load_function_example :
    (w' : World) × (from_lua
        (lcvm_set_load_function (lua_push nil) (lua_push nil) ⦃R = answering⦄)
        (udata 0 ∷ func 4 ∷ [])
        start
      ≡ ok [] w')
    × ((name source : String) (st vs : List Value) (u : World)
        → find_module name (contents (own_modules start)) ≡ none
        → Runtime.call answering 4 (str name ∷ []) (record w' { stack = st })
          ≡ returned (str source ∷ vs) u
        → vm_load_module ⦃R = answering⦄ name (record w' { stack = st })
          ≡ ok (record { source = some source; on_complete = true }) (record u { stack = st }))
vm_load_module-lcvm_set_load_function_example =
    vm_load_module-lcvm_set_load_function ⦃R = answering⦄ (lua_push nil) (lua_push nil) start 4 refl
      refl

-- A Wren whose methods put 7 in slot 0.
abbrev put_seven : String → Cmd T
put_seven signature = wren_set_slot 0 (wren_int 7)

abbrev class_only : String → String → String → String
class_only m c signature = c

-- The methods are counted by tens, the closures by ones.
abbrev closure_number : (p n : ℕ) → ℕ
closure_number p n = 100 + 10 * p + n

call_method-lcvm_get_method_example :
    (p : ℕ) × (w' : World) × (from_lua
        (lcvm_get_method class_only closure_number)
        (udata 0 ∷ str "main" ∷ str "Game" ∷ str "run(_)" ∷ [])
        start
      ≡ ok (func (closure_number p 0) ∷ []) w')
    × ((vs : List Value) (xs : List Wren) (u : World) (y : Value)
        → AllPlain vs xs
        → put_seven "run(_)" (record w' {
          stack = reversed vs [];
          base = 0;
          slots = filled 1 xs (update w'.slots 0 (Wren.unknown 0));
        })
          ≡ ok tt u
        → from_wren (u.slots 0) ≡ some y
        → from_lua (call_method put_seven p) vs w'
          ≡ ok (y ∷ []) (record u { stack = w'.stack; base = w'.base }))
call_method-lcvm_get_method_example =
    call_method-lcvm_get_method class_only put_seven closure_number "main" "Game" "run(_)"
      (Wren.unknown 0) start refl refl refl refl refl

avm_sort-lc_set_sort_func_example :
    (w' : World) × (from_lua lc_set_sort_func (func 4 ∷ []) start ≡ ok [] w')
    × ((n r a : ℕ) (slots : ℕ → Wren) (vs : List Value) (u : World)
        → slots 0 ≡ Wren.foreign n
        → IsObject share_array n r a start
        → runtime.call 4 (table a ∷ []) (record w' { slots = slots }) ≡ returned vs u
        → avm_sort (record w' { slots = slots }) ≡ ok tt (record u { stack = str "code" ∷ [] }))
avm_sort-lc_set_sort_func_example = avm_sort-lc_set_sort_func 4 start

abbrev method_names : List Value
method_names = udata 0 ∷ str "main" ∷ str "Game" ∷ str "step(_)" ∷ []

abbrev printed_name : String → String → String → String
printed_name m c signature = signature

call_method-lcvm_free_method_example :
    (p : ℕ) × (w1 w2 w3 : World) × (from_lua
        (lcvm_get_method printed_name closure_number)
        method_names
        start
      ≡ ok (func (closure_number p 0) ∷ []) w1)
    × (from_lua (lcvm_get_method printed_name closure_number) method_names w1
        ≡ ok (func (closure_number p 1) ∷ []) w2)
    × (w2 ≡ record w1 { new_closure = suc w1.new_closure })
    × (from_lua (lcvm_free_method printed_name) method_names w2 ≡ ok [] w3)
    × (w3.method_hash ≡ [])
    × ((wren_call : String → Cmd T) (vs : List Value)
        → from_lua (call_method wren_call p) vs w3 ≡ fault)
call_method-lcvm_free_method_example =
    call_method-lcvm_free_method printed_name "main" "Game" "step(_)" (Wren.unknown 0) start refl
      refl refl refl refl closure_number

wren_set_slot_from_lua-type_example :
    (w' : World) × (wren_set_slot_from_lua 3 (top 1) start ≡ ok tt w')
    × Passed 3 (str "code") start w' (some w_string)
wren_set_slot_from_lua-type_example =
    wren_set_slot_from_lua-type 3 (top 1) start (str "code") refl (λ e. cc)

-- A call of setDebugEmit with the function 4.
abbrev emit_call : World
emit_call = record start { stack = func 4 ∷ []; registry = λ l. table 2 }

abbrev unref : Table → ℤ → Table
unref t r = t

lc_emit_debug-lc_set_debug_emit_example :
    (e : Emitter) × (w' : World) × (lc_set_debug_emit unref no_emitter emit_call ≡ ok e w')
    × (e.emit ≡ emit_debug)
    × (w'.stack ≡ func 4 ∷ [])
    × ((text : String) (st : List Value) (vs : List Value) (u : World)
        → runtime.call 4 (str text ∷ []) (record w' { stack = table 2 ∷ st }) ≡ returned vs u
        → lc_emit_debug e text (record w' { stack = st }) ≡ ok tt (record u { stack = st }))
lc_emit_debug-lc_set_debug_emit_example =
    lc_emit_debug-lc_set_debug_emit unref 4 2 emit_call refl refl refl
