-- ===== src/Array/Access.antt =====
-- src/cls_array.c: reading and writing items, counting, swapping, iterating, sorting.
use carrica.Base.{ℕ, suc, Bool, true, false, none, some, leb, if◌then◌else◌}
use carrica.Base.Int.{ℤ, pos, negsuc, ◌+ℤ◌}
use carrica.Lua.Value.{Light, light, whole}
use carrica.Lua.Runtime.{Runtime}
use carrica.Lua.Api.{
  T, top, lua_push, lua_pop, lua_pushlightuserdata, lua_newtable, lua_gettable_registry,
  lua_settable_registry, lua_gettable, lua_settable, lua_rawgeti, lua_rawseti, lua_objlen, lua_call,
  int_value,
}
use carrica.Wren.Value.{Wren, w_num}
use carrica.Wren.Api.{
  wren_set_slot, wren_get_slot_type, wren_get_slot_int, wren_get_slot_foreign, int_in_range,
}
use carrica.World.{fault, Cmd, pure, ◌>>=◌, ◌>>◌}
use carrica.Marshal.{wren_error, wren_set_slot_from_lua, lua_push_from_wren_slot}
use carrica.Reference.{push_self}

-- `(int)wrenGetSlotDouble(vm, i) + 1`
unfoldable pub lua_position : ℕ → Cmd ℤ
lua_position i = wren_get_slot_int i >>= λ z. int_in_range (z +ℤ pos 1)

unfoldable pub avm_get : Cmd T
avm_get = do
  push_self
  kind ← wren_get_slot_type 1
  elim kind [
    | w_num ↦ do
      i ← lua_position 1
      lua_push (int_value i)
      lua_gettable 2
      wren_set_slot_from_lua 0 (top 1)
      lua_pop 2
    | _ ↦ do wren_error "bad index passed to Array.get() numbers only"; lua_pop 1
  ]

-- The registry key of a foreign object's table.
abbrev push_key : ℕ → Cmd T
push_key n w = elim (w.rerefs n).pref [ none ↦ fault | some r ↦ lua_push (light (Light.ref r)) w ]

unfoldable pub avm_clear : Cmd T
avm_clear = do wren_get_slot_foreign 0 >>= push_key; lua_newtable; lua_settable_registry

unfoldable pub avm_iterator_value : Cmd T
avm_iterator_value = do
  push_self
  i ← lua_position 1
  lua_rawgeti 1 i
  wren_set_slot_from_lua 0 (top 1)
  lua_pop 2

-- An index from Wren counts from the end if it is negative.
abbrev pub from_end : ℕ → ℤ → ℤ
from_end end (pos n) = pos n
from_end end (negsuc n) = pos end +ℤ negsuc n

module _ ⦃R : Runtime⦄ where
  unfoldable pub avm_set : Cmd T
  avm_set = do
    push_self
    kind ← wren_get_slot_type 1
    elim kind [
      | w_num ↦ do
        i ← lua_position 1
        lua_push (int_value i)
        lua_push_from_wren_slot 2
        lua_settable 3
      | _ ↦ wren_error "bad index passed to Array.set() numbers only"
    ]
    lua_pop 1

  unfoldable pub avm_count : Cmd T
  avm_count = do push_self; n ← lua_objlen 1; wren_set_slot 0 (Wren.num (whole (pos n))); lua_pop 1

  abbrev swap_items : ℕ → ℕ → Cmd T
  swap_items a b = do
    lua_rawgeti 1 (pos (suc a))
    lua_rawgeti 2 (pos (suc b))
    lua_rawseti 3 (pos (suc a))
    lua_rawseti 2 (pos (suc b))
    lua_pop 1

  -- The tests in the order of the source: a < 0, b < 0, a >= end, b >= end.
  abbrev swap_in_bounds : ℕ → ℕ → ℕ → Cmd T
  swap_in_bounds end a b =
      if leb end a
      then (lua_pop 1 >> wren_error "index a out of bounds on Array.swap()")
      else if leb end b
      then (lua_pop 1 >> wren_error "index b out of bounds on Array.swap()")
      else swap_items a b

  abbrev swap_at : ℕ → ℤ → ℤ → Cmd T
  swap_at end (negsuc _) b = lua_pop 1 >> wren_error "index a out of bounds on Array.swap()"
  swap_at end (pos a) (negsuc _) = lua_pop 1 >> wren_error "index b out of bounds on Array.swap()"
  swap_at end (pos a) (pos b) = swap_in_bounds end a b

  unfoldable pub avm_swap : Cmd T
  avm_swap = do
    push_self
    end ← lua_objlen 1
    a ← wren_get_slot_int 1
    b ← wren_get_slot_int 2
    swap_at end (from_end end a) (from_end end b)

  -- `i >= lua_objlen(…)` compares as unsigned, so a negative i is past the end.
  abbrev pub past_end : ℤ → ℕ → Bool
  past_end (pos i) len = leb len i
  past_end (negsuc _) len = true

  abbrev iterate_from : ℤ → ℕ → Cmd T
  iterate_from i len =
      if past_end i len
      then (wren_set_slot 0 (Wren.bool false) >> lua_pop 1)
      else int_in_range (i +ℤ pos 1) >>= λ j. wren_set_slot 0 (Wren.num (whole j))

  unfoldable pub avm_iterate : Cmd T
  avm_iterate = do
    wren_get_slot_foreign 0
    kind ← wren_get_slot_type 1
    elim kind [
      | w_num ↦ do
        i ← wren_get_slot_int 1
        push_self
        len ← lua_objlen 1
        iterate_from i len
        lua_pop 1
      | _ ↦ wren_set_slot 0 (Wren.num (whole (pos 0)))
    ]

  -- lua_pushSortFunction of src/carrica.c, then a call that drops its results
  unfoldable pub avm_sort : Cmd T
  avm_sort = do
    lua_pushlightuserdata Light.sort_ref
    lua_gettable_registry
    push_self
    lua_call 1
    pure tt
