-- ===== src/Lua/Api.antt =====
-- The C API of Lua 5.1, by the effect on the stack that the manual gives each function, without
-- metamethods. A stack index -k is written k; reading below the stack, and a raw access to what is
-- no table, is a fault.
use carrica.Base.{
  ℕ, zero, suc, ◌+◌, ◌-◌, length, String, Bool, true, false, Option, none, some, List, [], ◌∷◌,
  get_elem?, update, if◌then◌else◌,
}
use carrica.Base.Int.{ℤ, pos, negsuc}
use carrica.Lua.Value.{
  Value, Light, nil, num, str, table, light, func, whole, light_eq, value_eq, is_key,
}
use carrica.Lua.Table.{Table, lookup, Next, next, entry, finished, invalid_key}
use carrica.Lua.Runtime.{Runtime, Called, returned, failed}
use carrica.World.{Run, ok, raised, fault, Cmd, pure, ◌>>=◌, ◌>>◌, and_then}

abbrev pub T : Type 0
T = Unit {0}

-- The value at index -k.
abbrev pub at : ℕ → List Value → Option Value
at zero st = none
at (suc k) st = get_elem? st k

abbrev pub or_fault : {A : Type 0} → Option A → Cmd A
or_fault none = λ _. fault
or_fault (some a) = pure a

abbrev pub lua_index : ℕ → Cmd Value
lua_index k w = or_fault (at k w.stack) w

-- An index of either sign: `top k` is -k, `arg i` is i, counted from the base of the frame.
pub data Index : Type 0 where
  top : ℕ → Index
  arg : ℕ → Index

abbrev pub at_index : Index → ℕ → List Value → Option Value
at_index (top k) base st = at k st
at_index (arg i) base st = at (length st + 1 - base - i) st

abbrev pub lua_at : Index → Cmd Value
lua_at i w = or_fault (at_index i w.base w.stack) w

abbrev pub lua_push : Value → Cmd T
lua_push v w = ok tt (record w { stack = v ∷ w.stack })

abbrev pub lua_pushlightuserdata : Light → Cmd T
lua_pushlightuserdata l = lua_push (light l)

abbrev pub lua_pushvalue : ℕ → Cmd T
lua_pushvalue k = lua_index k >>= lua_push

abbrev pub pop_values : ℕ → List Value → Option (List Value)
pop_values zero st = some st
pop_values (suc n) [] = none
pop_values (suc n) (v ∷ st) = pop_values n st

abbrev pub set_stack : List Value → Cmd T
set_stack st w = ok tt (record w { stack = st })

abbrev pub lua_pop : ℕ → Cmd T
lua_pop n w = and_then (or_fault (pop_values n w.stack) w) set_stack

-- The value on top, taken off.
abbrev pub take_top : List Value → Cmd Value
take_top [] w = fault
take_top (v ∷ st) w = ok v (record w { stack = st })

abbrev pub lua_take : Cmd Value
lua_take w = take_top w.stack w

-- The address of the table that a value is.
abbrev pub raw_table : Value → Cmd ℕ
raw_table (table a) = pure a
raw_table _ = λ _. fault

-- The same where the API looks for metamethods, of which there are none.
abbrev pub indexed_table : Value → Cmd ℕ
indexed_table (table a) = pure a
indexed_table _ = λ w. raised "attempt to index a value" w

abbrev pub write_table : ℕ → Table → Cmd T
write_table a t w = ok tt (record w { tables = update w.tables a t })

abbrev pub lua_newtable : Cmd T
lua_newtable w = ok tt (record w {
  stack = table w.new_table ∷ w.stack;
  tables = update w.tables w.new_table [];
  new_table = suc w.new_table;
})

abbrev pub light_key : Value → Cmd Light
light_key (light l) = pure l
light_key _ = λ _. fault

-- lua_gettable(L, LUA_REGISTRYINDEX) at a key that is light user data
abbrev pub lua_gettable_registry : Cmd T
lua_gettable_registry = lua_take >>= light_key >>= λ l w. lua_push (w.registry l) w

abbrev pub set_registry : (Light → Value) → Light → Value → Light → Value
set_registry f l v k = if light_eq k l then v else f k

-- lua_settable(L, LUA_REGISTRYINDEX)
abbrev pub lua_settable_registry : Cmd T
lua_settable_registry = do
  v ← lua_take
  l ← lua_take >>= light_key
  λ w. ok tt (record w { registry = set_registry w.registry l v })

abbrev pub lua_gettable : ℕ → Cmd T
lua_gettable k = do
  a ← lua_index k >>= indexed_table
  key ← lua_take
  λ w. lua_push (lookup key (w.tables a)) w

abbrev pub lua_getfield : ℕ → String → Cmd T
lua_getfield k s = do
  a ← lua_index k >>= indexed_table
  λ w. lua_push (lookup (str s) (w.tables a)) w

-- A field of the table of the globals.
abbrev pub lua_getglobal : String → Cmd T
lua_getglobal s w = lua_push (lookup (str s) (w.tables w.globals)) w

abbrev pub int_value : ℤ → Value
int_value z = num (whole z)

abbrev pub lua_rawgeti : ℕ → ℤ → Cmd T
lua_rawgeti k n = do
  a ← lua_index k >>= raw_table
  λ w. lua_push (lookup (int_value n) (w.tables a)) w

abbrev pub lua_equal : ℕ → ℕ → Cmd Bool
lua_equal j k w = elim (at j w.stack) [
  | none ↦ ok false w
  | some a ↦ elim (at k w.stack) [ none ↦ ok false w | some b ↦ ok (value_eq a b) w ]
]

-- The step of a traversal: the key on top is taken off, and the next entry pushed if there is one.
abbrev pub push_next : Next → Cmd Bool
push_next (entry j v) = lua_push j >> lua_push v >> pure true
push_next finished = pure false
push_next invalid_key = λ w. raised "invalid key to 'next'" w

abbrev pub lua_next : ℕ → Cmd Bool
lua_next k = do
  a ← lua_index k >>= raw_table
  key ← lua_take
  λ w. push_next (next key (w.tables a)) w

abbrev pub split_args : ℕ → List Value → List Value → Option (List Value × List Value)
split_args zero args st = some (args, st)
split_args (suc n) args [] = none
split_args (suc n) args (v ∷ st) = split_args n (v ∷ args) st

abbrev keep_rest : List Value × List Value → Cmd (List Value)
keep_rest (args, st) w = ok args (record w { stack = st })

abbrev pub first_value : List Value → Value
first_value [] = nil
first_value (v ∷ vs) = v

module _ ⦃R : Runtime⦄ where
  abbrev pub raw_assign : ℕ → Value → Value → Cmd T
  raw_assign a k v w = write_table a (R.raw_set (w.tables a) k v) w

  abbrev pub lua_settable : ℕ → Cmd T
  lua_settable k = do
    a ← lua_index k >>= indexed_table
    v ← lua_take
    key ← lua_take
    if is_key key then raw_assign a key v else λ w. raised "table index is nil or NaN" w

  -- t[n] = v for the t at the index, with the v on top
  abbrev pub lua_rawseti : ℕ → ℤ → Cmd T
  lua_rawseti k n = do a ← lua_index k >>= raw_table; v ← lua_take; raw_assign a (int_value n) v

  abbrev pub length_of : Value → Cmd ℕ
  length_of (table a) w = ok (R.objlen (w.tables a)) w
  length_of v w = ok (R.size_of v) w

  abbrev pub lua_objlen : ℕ → Cmd ℕ
  lua_objlen k = lua_index k >>= length_of

  -- The function's effects, on the caller's stack; the first result.
  abbrev pub finish_call : List Value → Called → Run Value
  finish_call st (returned vs w) = ok (first_value vs) (record w { stack = st })
  finish_call st (failed e w) = raised e w

  abbrev pub call_value : Value → List Value → Cmd Value
  call_value (func f) args w = finish_call w.stack (R.call f args w)
  call_value _ args w = raised "attempt to call a value" w

  abbrev pub take_args : ℕ → Cmd (List Value)
  take_args n w = and_then (or_fault (split_args n [] w.stack) w) keep_rest

  abbrev pub lua_call : ℕ → Cmd Value
  lua_call n = do args ← take_args n; f ← lua_take; call_value f args

  -- The value on top becomes a reference in the table at the index; nil gives LUA_REFNIL.
  abbrev pub ref_value : ℕ → Value → Cmd ℤ
  ref_value a nil w = ok (negsuc 0) w
  ref_value a v w =
      ok (pos (suc (R.fresh_ref (w.tables a))))
        (record w { tables = update w.tables a (R.with_ref (w.tables a) v) })

  abbrev pub lual_ref : ℕ → Cmd ℤ
  lual_ref k = do a ← lua_index k >>= raw_table; v ← lua_take; ref_value a v
