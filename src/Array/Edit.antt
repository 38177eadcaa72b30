-- ===== src/Array/Edit.antt =====
-- src/cls_array.c: searching, inserting and removing. The loops whose counter may stand still run
-- on fuel.
use carrica.Base.{ℕ, zero, suc, ◌-◌, ltb, leb, ◌==◌, if◌then◌else◌}
use carrica.Base.Int.{ℤ, pos, negsuc}
use carrica.Lua.Value.{nil, whole}
use carrica.Lua.Runtime.{Runtime}
use carrica.Lua.Api.{T, lua_push, lua_pop, lua_rawgeti, lua_rawseti, lua_objlen, lua_equal}
use carrica.Wren.Value.{Wren}
use carrica.Wren.Api.{wren_set_slot, wren_get_slot_int}
use carrica.World.{out_of_fuel, Cmd, pure, ◌>>=◌, ◌>>◌}
use carrica.Marshal.{wren_error, lua_push_from_wren_slot}
use carrica.Reference.{push_self}
use carrica.Array.Access.{from_end}

-- The loop of avmIndexOf: nothing leaves it when the item is found.
unfoldable pub index_loop : (fuel end p : ℕ) → Cmd T
index_loop zero end p = λ w. out_of_fuel
index_loop (suc f) end p =
    if ltb p end
    then (do
      lua_rawgeti 2 (pos (suc p))
      found ← lua_equal 1 2
      if found
          then (do lua_pop 2; wren_set_slot 0 (Wren.num (whole (pos p))); index_loop f end p)
          else (lua_pop 1 >> index_loop f end (suc p)))
    else pure tt

-- An index in range of an insert or a removal, or -1 or less, or end or more.
abbrev in_bounds : ℕ → ℤ → Cmd T → (ℕ → Cmd T) → Cmd T
in_bounds end (negsuc _) bad good = bad
in_bounds end (pos p) bad good = if leb end p then bad else good p

module _ ⦃R : Runtime⦄ where
  unfoldable pub avm_index_of : ℕ → Cmd T
  avm_index_of fuel = do
    push_self
    end ← lua_objlen 1
    lua_push_from_wren_slot 1
    index_loop fuel end 0
    lua_pop 2
    wren_set_slot 0 (Wren.num (whole (negsuc 0)))

  -- `while (mp < end)` of avmInsert, with the rounds left
  insert_loop : (rounds mp : ℕ) → Cmd T
  insert_loop zero mp = pure tt
  insert_loop (suc k) mp = do
    lua_rawgeti 1 (pos mp)
    lua_rawseti 1 (pos (suc mp))
    insert_loop k (suc mp)

  insert_at : (end p : ℕ) → Cmd T
  unfolding insert_loop
  insert_at end p = do
    if (suc p) == end then pure tt else insert_loop (end - (suc p)) (suc p)
    lua_push_from_wren_slot 2
    lua_rawseti 2 (pos (suc p))
    lua_pop 1

  unfoldable pub avm_insert : Cmd T
  unfolding insert_at
  avm_insert = do
    push_self
    end ← lua_objlen 1
    i ← wren_get_slot_int 1
    in_bounds end (from_end end i) (lua_pop 1 >> wren_error "index out of bounds on Array.insert()")
        (insert_at end)

  -- The loop that moves the items up: its counter does not change.
  unfoldable pub shift_loop : (fuel p end : ℕ) → Cmd T
  shift_loop zero p end = λ w. out_of_fuel
  shift_loop (suc f) p end =
      if ltb p end
      then (do lua_rawgeti 2 (pos (suc p)); lua_rawseti 2 (pos p); shift_loop f p end)
      else pure tt

  -- The loop of avmRemove. Where the item is found the counter has moved on one.
  remove_loop : (fuel end p : ℕ) → Cmd T
  remove_loop zero end p = λ w. out_of_fuel
  remove_loop (suc f) end p =
      if ltb p end
      then (do
        lua_rawgeti 2 (pos (suc p))
        found ← lua_equal 1 2
        if found
            then (do
              lua_pop 2
              shift_loop f (suc p) end
              lua_push nil
              lua_rawseti 2 (pos (suc p))
              remove_loop f end (suc p))
            else (lua_pop 1 >> remove_loop f end (suc p)))
      else pure tt

  unfoldable pub avm_remove : ℕ → Cmd T
  unfolding remove_loop
  avm_remove fuel = do
    push_self
    end ← lua_objlen 1
    lua_push_from_wren_slot 1
    remove_loop fuel end 0
    lua_pop 2

  unfoldable pub remove_index : (fuel end p : ℕ) → Cmd T
  remove_index fuel end p = do
    if (suc p) == end
        then (lua_push nil >> lua_rawseti 2 (pos (suc p)))
        else do shift_loop fuel (suc p) end; lua_push nil; lua_rawseti 2 (pos (suc p))
    lua_pop 1

  unfoldable pub avm_remove_at : ℕ → Cmd T
  avm_remove_at fuel = do
    push_self
    end ← lua_objlen 1
    i ← wren_get_slot_int 1
    in_bounds end (from_end end i)
        (lua_pop 1 >> wren_error "index out of bounds on Array.removeAt()") (remove_index fuel end)
