-- ===== src/Lua/Table.antt =====
-- A Lua table: its entries, in the order in which `lua_next` goes through them.
use carrica.Base.{ℕ, suc, ◌≡◌, true, false, List, [], ◌∷◌, if◌then◌else◌, ◌<◌, length, get_or}
use carrica.Base.Int.{pos}
use carrica.Lua.Value.{Value, nil, num, whole, value_eq, is_nil, is_key}

abbrev pub Table : Type 0
Table = List (Value × Value)

-- `t[k]` without metamethods.
abbrev pub lookup : Value → Table → Value
lookup k [] = nil
lookup k ((j, v) ∷ t) = if value_eq k j then v else lookup k t

-- The key of the integer n.
abbrev pub int_key : ℕ → Value
int_key n = num (whole (pos n))

pub data Next : Type 0 where
  entry : Value → Value → Next
  finished : Next
  invalid_key : Next

abbrev pub first : Table → Next
first [] = finished
first ((k, v) ∷ t) = entry k v

-- The entry after the one with key k.
abbrev pub after : Value → Table → Next
after k [] = invalid_key
after k ((j, v) ∷ t) = if value_eq k j then first t else after k t

abbrev pub next : Value → Table → Next
next nil t = first t
next k t = after k t

-- Every table that the program can build: no key is nil or NaN or stands twice, no value is nil.
abbrev pub IsTable : Table → Type 0
IsTable [] = Unit
IsTable ((k, v) ∷ t) = (is_key k ≡ true) × (is_nil v ≡ false) × (lookup k t ≡ nil) × IsTable t

-- The items t[1], t[2], … of a table are those of a list without nils, and no index beyond has
-- an item: a regular array in the words of the manual.
pub record IsArray (t : Table) (xs : List Value) : Type 0 where
  pub item : (i : ℕ) → lookup (int_key (suc i)) t ≡ get_or xs i nil
  pub no_nil : (i : ℕ) → i < length xs → is_nil (get_or xs i nil) ≡ false
