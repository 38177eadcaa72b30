-- ===== src/TableClass/Traversal.antt =====
-- Traversals by lua_next of a table that stays as it is, and count of src/cls_table.c.
use carrica.Base.{
  ℕ, zero, suc, ◌+◌, ◌<◌, ◌≡◌, refl, ◌∙◌, true, false, List, [], ◌∷◌, ◌++◌, length, update, arith,
  append_assoc, ap,
}
use carrica.Base.Int.{pos}
use carrica.Lua.Value.{Value, nil, table, whole}
use carrica.Lua.Equality.{next-entry}
use carrica.Lua.Table.{Table, IsTable, next, first, entry, finished}
use carrica.Lua.Api.{lua_next, push_next}
use carrica.Wren.Value.{Wren}
use carrica.World.{share_table, World, ok, pushed}
use carrica.Reference.Object.{IsSelf, push_self-ok}
use carrica.TableClass.Walk.{count_loop, tvm_count}

-- From each key of a part of the table, lua_next goes on to the rest of that part.
abbrev pub Chain : Table → Table → Type 0
Chain t [] = Unit {0}
Chain t ((k, v) ∷ rest) = (next k t ≡ first rest) × Chain t rest

Chain-behind : (done rest : Table) → IsTable (done ++ rest) → Chain (done ++ rest) rest
Chain-behind done [] is = tt
Chain-behind done ((k, v) ∷ rest) is = (
  next-entry done k v rest is,
  rw (append_assoc done ((k, v) ∷ []) rest) at
      (Chain-behind (done ++ (k, v) ∷ []) rest (rw (append_assoc done ((k, v) ∷ []) rest) is)),
)

pub Chain-all : (t : Table) → IsTable t → Chain t t
Chain-all t is = Chain-behind [] t is

lua_next-run :
    (a : ℕ) (c : Value) (w : World) (st : List Value)
    → w.stack ≡ c ∷ table a ∷ st
    → lua_next 2 w ≡ push_next (next c (w.tables a)) (record w { stack = table a ∷ st })
lua_next-run a c w st top = rw top

pub lua_next-entry :
    (a : ℕ) (c k v : Value) (w : World) (st : List Value)
    → w.stack ≡ c ∷ table a ∷ st
    → next c (w.tables a) ≡ entry k v
    → lua_next 2 w ≡ ok true (record w { stack = v ∷ k ∷ table a ∷ st })
lua_next-entry a c k v w st top at =
    lua_next-run a c w st top ∙ ap (λ e. push_next e (record w { stack = table a ∷ st })) at

pub lua_next-end :
    (a : ℕ) (c : Value) (w : World) (st : List Value)
    → w.stack ≡ c ∷ table a ∷ st
    → next c (w.tables a) ≡ finished
    → lua_next 2 w ≡ ok false (record w { stack = table a ∷ st })
lua_next-end a c w st top at =
    lua_next-run a c w st top ∙ ap (λ e. push_next e (record w { stack = table a ∷ st })) at

count_loop-Chain :
    (a : ℕ) (c : Value) (rest : Table) (fuel cnt : ℕ) (w : World) (st : List Value)
    → w.stack ≡ c ∷ table a ∷ st
    → next c (w.tables a) ≡ first rest
    → Chain (w.tables a) rest
    → length rest < fuel
    → (n : ℕ) → n ≡ cnt + length rest
    → count_loop fuel cnt w ≡ ok n (record w { stack = table a ∷ st })
unfolding count_loop
count_loop-Chain a c rest zero cnt w st top at chain lt n sum = absurd (omega arith)
count_loop-Chain a c [] (suc f) cnt w st top at chain lt n sum =
    rw (lua_next-end a c w st top at)
      (ap (λ m. ok m (record w { stack = table a ∷ st })) (omega arith))
count_loop-Chain a c ((k, v) ∷ rest) (suc f) cnt w st top at (goes, chain) lt n sum =
    rw (lua_next-entry a c k v w st top at) (
      count_loop-Chain a k rest f (suc cnt) (record w { stack = k ∷ table a ∷ st }) st refl goes
        chain (omega arith) n (omega arith))

-- count of a Table whose table has distinct keys puts the number of entries in slot 0, given fuel for
-- one step more than that. With the table it takes the value that was on top of the stack off.
pub tvm_count_lem :
    {n r a : ℕ} {w : World} (fuel : ℕ) (v : Value) (st : List Value)
    → IsSelf share_table n r a w
    → IsTable (w.tables a)
    → length (w.tables a) < fuel
    → w.stack ≡ v ∷ st
    → tvm_count fuel w
      ≡ ok tt (record w {
        stack = st;
        slots = update w.slots 0 (Wren.num (whole (pos (length (w.tables a)))));
      })
unfolding tvm_count
tvm_count_lem {a} {w} fuel v st self is enough below = rw (
  push_self-ok self,
  count_loop-Chain a nil (w.tables a) fuel 0 (pushed nil (pushed (table a) w)) w.stack refl refl
      (Chain-all (w.tables a) is) enough (length (w.tables a)) (omega arith),
  below,
)
