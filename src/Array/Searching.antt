-- ===== src/Array/Searching.antt =====
-- avmIndexOf of src/cls_array.c, at a regular array.
use carrica.Base.{
  ℕ, zero, suc, ◌<◌, ◌≡◌, ◌∙◌, refl, ap, Bool, true, false, some, List, [], ◌∷◌, ◌++◌, length,
  length-snoc, append_assoc, get_or-middle, update, ltb_of_lt, ltb_of_le, sym, ◌+◌, arith,
  Bool-cases, inl, inr, if◌then◌else◌,
}
use carrica.Base.Int.{pos, negsuc}
use carrica.Lua.Value.{Value, nil, table, whole, value_eq}
use carrica.Lua.Table.{int_key, lookup, IsArray}
use carrica.Lua.Runtime.{Runtime}
use carrica.Lua.Api.{lua_rawgeti}
use carrica.Wren.Value.{Wren}
use carrica.World.{share_array, World, ok, fault, pushed}
use carrica.Marshal.Plain.{from_wren, push_slot-plain}
use carrica.Reference.Object.{IsSelf, push_self-ok}
use carrica.Array.Items.{IsArray-objlen}
use carrica.Array.Edit.{avm_index_of, index_loop}

-- An item equals the value.
abbrev pub found_in : Value → List Value → Bool
found_in v [] = false
found_in v (x ∷ xs) = if value_eq x v then true else found_in v xs

-- There is no table on top of the stack.
abbrev pub NoTable : List Value → Type 0
NoTable (table b ∷ st) = ⊥
NoTable _ = Unit

-- A read below the table on top, where there is none.
read_below :
    (a p : ℕ) (st : List Value) (w : World)
    → NoTable st
    → w.stack ≡ table a ∷ st
    → lua_rawgeti 2 (pos p) w ≡ fault
read_below a p [] w below top = rw top refl
read_below a p (table b ∷ st) w below top = absurd below
read_below a p (_ ∷ st) w below top = rw top refl

module _ (a : ℕ) (v : Value) (st : List Value) (below : NoTable st) where
  -- Once the two values are popped, the next round reads below the table.
  round_below :
      (f p end : ℕ) (w : World)
      → p < end
      → w.stack ≡ table a ∷ st
      → index_loop (suc f) end p w ≡ fault
  unfolding index_loop
  round_below f p end w lt top = rw (ltb_of_lt p end lt, read_below a (suc p) st w below top) refl

  -- A round at an item that is not the value, and one at an item that is.
  round-other :
      (f p end : ℕ) (x : Value) (w : World)
      → p < end
      → w.stack ≡ v ∷ table a ∷ st
      → lookup (int_key (suc p)) (w.tables a) ≡ x
      → value_eq x v ≡ false
      → index_loop (suc f) end p w
        ≡ index_loop f end (suc p) (record w { stack = v ∷ table a ∷ st })
  unfolding index_loop
  round-other f p end x w lt top item other = rw (ltb_of_lt p end lt, top, item, other) refl

  round-found :
      (f p end : ℕ) (x : Value) (w : World)
      → p < end
      → w.stack ≡ v ∷ table a ∷ st
      → lookup (int_key (suc p)) (w.tables a) ≡ x
      → value_eq x v ≡ true
      → index_loop (suc f) end p w
        ≡ index_loop f end p
            (record w { stack = table a ∷ st; slots = update w.slots 0 (Wren.num (whole (pos p))) })
  unfolding index_loop
  round-found f p end x w lt top item same = rw (ltb_of_lt p end lt, top, item, same) refl

  end_of_loop : (f p : ℕ) (w : World) → index_loop (suc f) p p w ≡ ok tt w
  unfolding index_loop
  end_of_loop f p w = rw (ltb_of_le p p (omega arith)) refl

  index_loop-found_in :
      (done ys : List Value) (f end : ℕ) (w : World)
      → w.stack ≡ v ∷ table a ∷ st
      → IsArray (w.tables a) (done ++ ys)
      → end ≡ length done + length ys
      → length ys < f
      → index_loop f end (length done) w ≡ (if found_in v ys then fault else ok tt w)
  index_loop-found_in done ys zero end w top is count lt = absurd (omega (arith, lt))
  index_loop-found_in done [] (suc f) end w top is count lt =
      let same : end ≡ length done = omega (arith, count) in rw same (end_of_loop f (length done) w)
  index_loop-found_in done (x ∷ ys) (suc zero) end w top is count lt = absurd (omega (arith, lt))
  index_loop-found_in done (x ∷ ys) (suc (suc f)) end w top is count lt =
      let item : lookup (int_key (suc (length done))) (w.tables a) ≡ x =
        is.item (length done) ∙ get_or-middle done x ys nil in
      let inside : length done < end = omega (arith, count) in
      elim (Bool-cases (value_eq x v)) [
        | inl e ↦ rw e (
            round-found (suc f) (length done) end x w inside top item e
            ∙ round_below f (length done) end _ inside refl)
        | inr e ↦ rw e (
            round-other (suc f) (length done) end x w inside top item e
            ∙ rw (length-snoc done x) at (
                index_loop-found_in (done ++ x ∷ []) ys (suc f) end
                  (record w { stack = v ∷ table a ∷ st }) refl
                  (rw (append_assoc done (x ∷ []) ys) is) (omega (arith, count, length-snoc done x))
                  (omega (arith, lt)))
            ∙ ap (λ s. if found_in v ys then fault else ok tt (record w { stack = s })) (sym top))
      ]

module _ ⦃R : Runtime⦄ {n r a : ℕ} {w : World} {xs : List Value} (self : IsSelf share_array n r a w)
    (is : IsArray (w.tables a) xs) where
  -- indexOf of a value that passes by value, in a regular array below whose table the stack of Lua has
  -- no table: if no item equals the value, the index in slot 0 is -1 and all else is as before, given
  -- fuel for one step more than there are items; but if an item equals it, the search reads below the
  -- table, which is a fault.
  pub avm_index_of-found_in :
      (v : Value) (fuel : ℕ)
      → from_wren (w.slots 1) ≡ some v
      → NoTable w.stack
      → length xs < fuel
      → avm_index_of fuel w ≡ (
          if found_in v xs
          then fault
          else ok tt (record w { slots = update w.slots 0 (Wren.num (whole (negsuc 0))) }))
  unfolding avm_index_of
  avm_index_of-found_in v fuel plain below lt = elim (Bool-cases (found_in v xs)) [
    | inl e ↦
        rw
          (
            push_self-ok self,
            IsArray-objlen is,
            push_slot-plain 1 v (pushed (table a) w) plain,
            index_loop-found_in a v w.stack below [] xs fuel (length xs)
                (pushed v (pushed (table a) w)) refl is (omega arith) lt,
            e,
          )
          refl
    | inr e ↦
        rw
          (
            push_self-ok self,
            IsArray-objlen is,
            push_slot-plain 1 v (pushed (table a) w) plain,
            index_loop-found_in a v w.stack below [] xs fuel (length xs)
                (pushed v (pushed (table a) w)) refl is (omega arith) lt,
            e,
          )
          refl
  ]
