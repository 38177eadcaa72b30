-- ===== src/TableClass/Access.antt =====
-- src/cls_table.c: reading and writing entries, and inserting many.
use carrica.Base.{ℕ, zero, suc, ◌%◌, String, Bool, none, some, not, ◌==◌, if◌then◌else◌}
use carrica.Base.Int.{pos}
use carrica.Lua.Value.{Light, nil, num, str, light, is_nil}
use carrica.Lua.Runtime.{Runtime}
use carrica.Lua.Api.{
  T, top, lua_index, lua_push, lua_pop, lua_newtable, lua_gettable, lua_settable,
  lua_settable_registry, lua_next, lua_objlen, lua_rawgeti,
}
use carrica.Wren.Value.{Wren, w_string, w_num, w_list, w_foreign}
use carrica.Wren.Api.{
  wren_set_slot, wren_get_slot_type, wren_get_slot_string, wren_get_slot_double,
  wren_get_slot_foreign, wren_set_slot_new_foreign, wren_get_list_count, wren_get_list_element,
}
use carrica.World.{
  Share, share_array, share_table, ReRef, ok, fault, out_of_fuel, Cmd, pure, ◌>>=◌, ◌>>◌,
}
use carrica.Marshal.{wren_error, wren_set_slot_from_lua, lua_push_from_wren_slot}
use carrica.Reference.{push_self, push_object, tvm_lua_new_table}

-- The switch on the type of the key in slot 1, which is pushed before the rest of its case.
abbrev pub with_key : Cmd T → String → Cmd T
with_key found err = do
  kind ← wren_get_slot_type 1
  elim kind [
    | w_string ↦ do s ← wren_get_slot_string 1; lua_push (str s); found
    | w_num ↦ do d ← wren_get_slot_double 1; lua_push (num d); found
    | _ ↦ wren_error err
  ]

-- The value is popped, the table is not.
unfoldable pub tvm_get : Cmd T
tvm_get = do
  push_self
  with_key (lua_gettable 2 >> wren_set_slot_from_lua 0 (top 1))
      "bad key passed to Table.get() numbers and strings only"
  lua_pop 1

-- lua_type(cvm->L, -1) != LUA_TNIL
abbrev top_is_some : Cmd Bool
top_is_some = lua_index 1 >>= λ v. pure (not (is_nil v))

unfoldable pub tvm_contains_key : Cmd T
tvm_contains_key = do
  push_self
  with_key (do lua_gettable 2; b ← top_is_some; wren_set_slot 0 (Wren.bool b))
      "bad key passed to Table.containsKey(), numbers and strings only"
  lua_pop 1

abbrev push_pref_key : ℕ → Cmd T
push_pref_key n w = elim (w.rerefs n).pref [
  | none ↦ fault
  | some r ↦ lua_push (light (Light.ref r)) w
]

unfoldable pub tvm_clear : Cmd T
tvm_clear = do wren_get_slot_foreign 0 >>= push_pref_key; lua_newtable; lua_settable_registry

abbrev blank_table : ReRef
blank_table = record { kind = share_table; pref = none }

abbrev set_table_pref : ℕ → ℕ → Cmd T
set_table_pref n r w = ok tt (record w {
  rerefs = λ m. if m == n then (record { kind = share_table; pref = some r }) else w.rerefs m;
})

unfoldable pub tvm_allocate : Cmd T
tvm_allocate = do
  n ← wren_set_slot_new_foreign 0 0 blank_table
  r ← tvm_lua_new_table
  set_table_pref n r

-- How many steps of two cover a count.
abbrev pub half_up : ℕ → ℕ
half_up zero = 0
half_up (suc zero) = 1
half_up (suc (suc n)) = suc (half_up n)

module _ ⦃R : Runtime⦄ where
  unfoldable pub tvm_set : Cmd T
  tvm_set = do
    push_self
    with_key (lua_push_from_wren_slot 2 >> lua_settable 3)
        "bad key passed to Table.set() numbers and strings only"
    lua_pop 1

  -- for (int i = 0; i < end; i = i + 2), with the rounds left
  unfoldable pub insert_list_loop : (rounds i : ℕ) → Cmd T
  insert_list_loop zero i = pure tt
  insert_list_loop (suc k) i = do
    wren_get_list_element 1 i 2
    wren_get_list_element 1 (suc i) 3
    lua_push_from_wren_slot 2
    lua_push_from_wren_slot 3
    lua_settable 3
    insert_list_loop k (suc (suc i))

  abbrev insert_list : ℕ → Cmd T
  unfolding insert_list_loop
  insert_list end =
      if (end % 2) == 0
      then insert_list_loop (half_up end) 0
      else wren_error "bad List passed to Table.insertAll(), unmatched key-value pair"

  -- The pop in the loop takes the other table off, since lua_settable has taken key and value.
  unfoldable pub insert_table_loop : (fuel : ℕ) → Cmd T
  insert_table_loop zero = λ w. out_of_fuel
  insert_table_loop (suc f) = do
    more ← lua_next 2
    if more then (do lua_settable 4; lua_pop 1; insert_table_loop f) else pure tt

  -- for (int i = 1; i <= end; i = i + 2), with the rounds left. The second read takes the value
  -- of the first for the table.
  unfoldable pub insert_array_loop : (rounds i : ℕ) → Cmd T
  insert_array_loop zero i = pure tt
  insert_array_loop (suc k) i = do
    lua_rawgeti 1 (pos i)
    lua_rawgeti 1 (pos (suc i))
    lua_settable 4
    insert_array_loop k (suc (suc i))

  abbrev insert_foreign : (fuel n : ℕ) → Share → Cmd T
  unfolding insert_table_loop insert_array_loop
  insert_foreign fuel n kind = elim kind [
    | share_table ↦ do push_object n; lua_push nil; insert_table_loop fuel; lua_pop 2
    | share_array ↦ do
      push_object n
      end ← lua_objlen 1
      insert_array_loop (half_up end) 1
      lua_pop 2
    | _ ↦ wren_error "bad foreign class passed to Table.insertAll()" >> lua_pop 1
  ]

  unfoldable pub tvm_insert_all : (fuel : ℕ) → Cmd T
  unfolding insert_list_loop insert_table_loop insert_array_loop
  tvm_insert_all fuel = do
    push_self
    kind ← wren_get_slot_type 1
    elim kind [
      | w_list ↦ do end ← wren_get_list_count 1; insert_list end; lua_pop 1
      | w_foreign ↦ do n ← wren_get_slot_foreign 1; λ w. insert_foreign fuel n (w.rerefs n).kind w
      | _ ↦ wren_error "bad type passed to Table.insertAll()" >> lua_pop 1
    ]
