-- ===== src/TableClass/Walk.antt =====
-- src/cls_table.c: the traversals by lua_next. Fuel is given by the number of entries and one more.
use carrica.Base.{ℕ, zero, suc, if◌then◌else◌}
use carrica.Base.Int.{pos}
use carrica.Lua.Value.{nil, whole}
use carrica.Lua.Runtime.{Runtime}
use carrica.Lua.Api.{T, top, lua_push, lua_pop, lua_pushvalue, lua_next, lua_rawseti}
use carrica.Wren.Value.{Wren}
use carrica.Wren.Api.{wren_set_slot, wren_set_slot_new_list, wren_insert_in_list}
use carrica.World.{out_of_fuel, Cmd, pure, ◌>>=◌, ◌>>◌}
use carrica.Marshal.{wren_set_slot_from_lua}
use carrica.Reference.{push_self, push_object, set_slot_array_class}
use carrica.Array.Build.{new_array_in_slot}

unfoldable pub count_loop : (fuel cnt : ℕ) → Cmd ℕ
count_loop zero cnt = λ w. out_of_fuel
count_loop (suc f) cnt = do
  more ← lua_next 2
  if more then (lua_pop 1 >> count_loop f (suc cnt)) else pure cnt

unfoldable pub tvm_count : (fuel : ℕ) → Cmd T
tvm_count fuel = do
  push_self
  lua_push nil
  cnt ← count_loop fuel 0
  lua_pop 2
  wren_set_slot 0 (Wren.num (whole (pos cnt)))

-- The loop that tvmKeys, tvmValues and tvmList share, with what each does at an entry.
unfoldable pub walk_loop : Cmd T → (fuel : ℕ) → Cmd T
walk_loop body zero = λ w. out_of_fuel
walk_loop body (suc f) = do
  more ← lua_next 2
  if more then (do body; lua_pop 1; walk_loop body f) else pure tt

-- A key is at -2, its value at -1.
abbrev pub list_value : ℕ → Cmd T
list_value k = wren_set_slot_from_lua 1 (top k) >> wren_insert_in_list 0 1

abbrev pub walk : Cmd T → (fuel : ℕ) → Cmd T
unfolding walk_loop
walk body fuel = do
  push_self
  wren_set_slot_new_list 0
  lua_push nil
  walk_loop body fuel
  lua_pop 2

unfoldable pub tvm_keys : (fuel : ℕ) → Cmd T
unfolding walk_loop
tvm_keys = walk (list_value 2)

unfoldable pub tvm_values : (fuel : ℕ) → Cmd T
unfolding walk_loop
tvm_values = walk (list_value 1)

unfoldable pub tvm_list : (fuel : ℕ) → Cmd T
unfolding walk_loop
tvm_list = walk (list_value 2 >> list_value 1)

module _ ⦃R : Runtime⦄ where
  unfoldable pub array_loop : (fuel i : ℕ) → Cmd T
  array_loop zero i = λ w. out_of_fuel
  array_loop (suc f) i = do
    more ← lua_next 3
    if more
        then (do
          lua_pushvalue 2
          lua_rawseti 4 (pos i)
          lua_rawseti 3 (pos (suc i))
          array_loop f (suc (suc i)))
        else pure tt

  unfoldable pub tvm_array : (fuel : ℕ) → Cmd T
  tvm_array fuel = do
    push_self
    set_slot_array_class 1
    n ← new_array_in_slot 1
    push_object n
    lua_push nil
    array_loop fuel 1
    lua_pop 2
