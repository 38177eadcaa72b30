-- ===== src/Lua/Runtime.antt =====
-- What Lua leaves open or keeps outside the sources, as a parameter of the model: where a new key
-- lands in a table's order, the border that the length operator finds, the references of
-- lauxlib, and what a Lua function does. The laws are those of the Lua 5.1 manual.
use carrica.Base.{ℕ, suc, ◌≡◌, ◌≤◌, ◌<◌, String, true, false, List, if◌then◌else◌}
use carrica.Lua.Value.{Number, Value, nil, value_eq, is_nil, is_key}
use carrica.Lua.Table.{Table, lookup, int_key, IsTable}
use carrica.World.{World}

-- How a call of a Lua function ends; the caller's stack is not the callee's to change.
pub data Called : Type 0 where
  returned : List Value → World → Called
  failed : String → World → Called

pub record Runtime : Type 0 where
  -- `t[k] = v` without metamethods; an assignment of nil removes the key
  pub raw_set : Table → Value → Value → Table
  pub lookup-raw_set :
      (t : Table) (k v j : Value)
      → is_key k ≡ true
      → lookup j (raw_set t k v) ≡ (if value_eq j k then v else lookup j t)
  pub raw_set-IsTable :
      (t : Table) (k v : Value) → is_key k ≡ true → IsTable t → IsTable (raw_set t k v)
  -- `#t`, which is n for a table whose positive integer keys are 1 to n, and the length of what
  -- is no table
  pub objlen : Table → ℕ
  pub size_of : Value → ℕ
  -- the text that a number converts to
  pub text_of_number : Number → String
  pub objlen-array :
      (t : Table) (n : ℕ)
      → ((i : ℕ) → i < n → is_nil (lookup (int_key (suc i)) t) ≡ false)
      → ((i : ℕ) → n ≤ i → lookup (int_key (suc i)) t ≡ nil)
      → objlen t ≡ n
  -- the positive key that `luaL_ref` picks, and what it leaves in the table
  pub fresh_ref : Table → ℕ
  pub with_ref : Table → Value → Table
  pub lookup-with_ref :
      (t : Table) (v : Value)
      → is_nil v ≡ false
      → lookup (int_key (suc (fresh_ref t))) (with_ref t v) ≡ v
  pub call : ℕ → List Value → World → Called
