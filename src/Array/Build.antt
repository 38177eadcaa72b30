-- ===== src/Array/Build.antt =====
-- src/cls_array.c: making an Array, and appending to one.
use carrica.Base.{ℕ, zero, suc, ◌+◌, none, some, update}
use carrica.Base.Int.{ℤ, pos, negsuc}
use carrica.Lua.Runtime.{Runtime}
use carrica.Lua.Api.{T, top, lua_pop, lua_pushvalue, lua_rawgeti, lua_rawseti, lua_objlen}
use carrica.Wren.Value.{w_list, w_foreign}
use carrica.Wren.Api.{
  wren_get_slot_type, wren_get_slot_int, wren_get_slot_foreign, wren_set_slot_new_foreign,
  wren_get_list_count, wren_get_list_element, wren_set_slot_new_list, wren_insert_in_list,
}
use carrica.World.{share_array, ReRef, ok, Cmd, pure, ◌>>=◌, ◌>>◌}
use carrica.Marshal.{wren_error, wren_set_slot_from_lua, lua_push_from_wren_slot}
use carrica.Reference.{push_self, push_object, avm_lua_new_array, set_slot_array_class}

-- A reference object of type Array; `pref` is written after it was allocated.
abbrev blank : ReRef
blank = record { kind = share_array; pref = none }

abbrev set_pref : ℕ → ℕ → Cmd T
set_pref n r w =
    ok tt (record w { rerefs = update w.rerefs n (record { kind = share_array; pref = some r }) })

-- The foreign object of a new Array, in slot 0, of the class in slot c.
abbrev pub new_array_in_slot : ℕ → Cmd ℕ
new_array_in_slot c = do
  n ← wren_set_slot_new_foreign 0 c blank
  r ← avm_lua_new_array
  set_pref n r
  pure n

unfoldable pub avm_allocate : Cmd T
avm_allocate = new_array_in_slot 0 >> pure tt

abbrev is_array : ReRef → Cmd T → Cmd T → Cmd T
is_array r yes_branch no_branch = elim r.kind [ share_array ↦ yes_branch | _ ↦ no_branch ]

-- The loop of avmList: rounds left, and the index i.
unfoldable pub list_loop : ℕ → ℕ → Cmd T
list_loop zero i = pure tt
list_loop (suc k) i = do
  lua_rawgeti 1 (pos (suc i))
  wren_set_slot_from_lua 1 (top 1)
  wren_insert_in_list 0 1
  lua_pop 1
  list_loop k (suc i)

module _ ⦃R : Runtime⦄ where
  -- for (int i = 1; i <= cnt; i++), with the rounds left
  filled_loop : ℕ → ℕ → Cmd T
  filled_loop zero i = pure tt
  filled_loop (suc k) i = do lua_pushvalue 1; lua_rawseti 2 (pos i); filled_loop k (suc i)

  abbrev rounds : ℤ → ℕ
  rounds (pos n) = n
  rounds (negsuc _) = 0

  unfoldable pub avm_filled : Cmd T
  unfolding filled_loop
  avm_filled = do
    set_slot_array_class 1
    n ← new_array_in_slot 1
    cnt ← wren_get_slot_int 1
    push_object n
    lua_push_from_wren_slot 2
    filled_loop (rounds cnt) 1
    lua_pop 1

  -- The loop over a Wren list in slot 1 that writes to the table on top from position p + 1 on.
  unfoldable pub add_list_loop : (rounds c p : ℕ) → Cmd T
  add_list_loop zero c p = pure tt
  add_list_loop (suc k) c p = do
    wren_get_list_element 1 c 2
    lua_push_from_wren_slot 2
    lua_rawseti 2 (pos (suc p))
    add_list_loop k (suc c) (suc p)

  unfoldable pub avm_from_list : Cmd T
  avm_from_list = do
    set_slot_array_class 2
    n ← new_array_in_slot 2
    push_object n
    kind ← wren_get_slot_type 1
    elim kind [
      | w_list ↦ do cnt ← wren_get_list_count 1; add_list_loop cnt 0 0
      | _ ↦ wren_error "bad value passed to Array.fromList() list only"
    ]
    lua_pop 1

  unfoldable pub avm_add : Cmd T
  avm_add = do
    push_self
    lua_push_from_wren_slot 1
    n ← lua_objlen 1
    lua_rawseti 1 (pos n)
    lua_pop 1

  -- The loop over another table on top, which writes to the table below it.
  unfoldable pub add_table_loop : (rounds i p : ℕ) → Cmd T
  add_table_loop zero i p = pure tt
  add_table_loop (suc k) i p = do
    lua_rawgeti 1 (pos (suc i))
    lua_rawseti 3 (pos (suc p))
    add_table_loop k (suc i) (suc p)

  add_all_foreign : ℕ → ℕ → Cmd T
  add_all_foreign n p = do push_object n; cnt ← lua_objlen 1; add_table_loop cnt 0 p; lua_pop 1

  unfoldable pub avm_add_all : Cmd T
  unfolding add_all_foreign
  avm_add_all = do
    push_self
    p ← lua_objlen 1
    kind ← wren_get_slot_type 1
    elim kind [
      | w_list ↦ do cnt ← wren_get_list_count 1; add_list_loop cnt 0 p
      | w_foreign ↦ do
        n ← wren_get_slot_foreign 1
        λ w.
            is_array (w.rerefs n) (add_all_foreign n p)
              (wren_error "bad value passed to Array.addAll() list or Array only") w
      | _ ↦ wren_error "bad value passed to Array.addAll() list or Array only"
    ]
    lua_pop 1

  unfoldable pub avm_plus : Cmd T
  unfolding avm_add_all
  avm_plus = avm_add_all

  -- The inner loop of avmTimes: rounds left, the index i, and the next position.
  times_inner : (rounds i p : ℕ) → Cmd T
  times_inner zero i p = pure tt
  times_inner (suc k) i p = do
    lua_rawgeti 2 (pos (suc i))
    lua_rawseti 2 (pos p)
    times_inner k (suc i) (suc p)

  -- while (cnt-- > 0)
  times_loop : (cnt len p : ℕ) → Cmd T
  unfolding times_inner
  times_loop zero len p = pure tt
  times_loop (suc k) len p = times_inner len 0 p >> times_loop k len (p + len)

  abbrev times_count : ℕ → ℕ → Cmd T
  unfolding times_loop
  times_count self cnt = do
    push_object self
    set_slot_array_class 1
    n ← new_array_in_slot 1
    push_object n
    len ← lua_objlen 2
    times_loop cnt len 1
    lua_pop 2

  abbrev times_by : ℕ → ℤ → Cmd T
  unfolding times_loop
  times_by self (pos (suc k)) = times_count self (suc k)
  times_by self _ = wren_error "array.*() called with a bad integer value"

  unfoldable pub avm_times : Cmd T
  unfolding times_loop
  avm_times = do self ← wren_get_slot_foreign 0; cnt ← wren_get_slot_int 1; times_by self cnt

  unfoldable pub avm_list : Cmd T
  unfolding list_loop
  avm_list = do push_self; len ← lua_objlen 1; wren_set_slot_new_list 0; list_loop len 0
