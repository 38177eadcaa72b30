-- ===== src/Lua/Args.antt =====
-- What a C function that Lua calls does with its arguments: a frame of its own, luaL_checkudata and
-- luaL_checkstring, and the results. The user data n is the carricaVM at the address n.
use carrica.Base.{
  ◌≡◌, ap, ◌∙◌, if_true, eq_self, ℕ, ◌-◌, ◌==◌, length, Bool, false, Option, none, some, List, [],
  ◌∷◌, take, drop, if◌then◌else◌,
}
use carrica.Lua.Value.{Value, ref, udata}
use carrica.Lua.Api.{lua_push, T, arg, at_index}
use carrica.Marshal.{MetaTable, sarray, stable, s_uobj, meta_of}
use carrica.World.{World, Run, ok, raised, fault, out_of_fuel, Cmd, pure, ◌>>=◌}

abbrev pub reversed : List Value → List Value → List Value
reversed [] acc = acc
reversed (v ∷ vs) acc = reversed vs (v ∷ acc)

-- The first n values of the stack, the topmost last; the caller's stack is as it was.
abbrev pub leave : World → Run ℕ → Run (List Value)
leave old (ok n w) =
    ok (reversed (take n w.stack) []) (record w { stack = old.stack; base = old.base })
leave old (raised e w) = raised e (record w { stack = old.stack; base = old.base })
leave old fault = fault
leave old out_of_fuel = out_of_fuel

-- A call from Lua of a C function: it has a frame with the arguments, and answers how many of the
-- values on top are its results.
abbrev pub from_lua : Cmd ℕ → List Value → Cmd (List Value)
from_lua f args w = leave w (f (record w { stack = reversed args []; base = 0 }))

-- The value of an argument; none where there is no such argument.
abbrev pub lua_arg : ℕ → Cmd (Option Value)
lua_arg i w = ok (at_index (arg i) w.base w.stack) w

abbrev pub is_given : (Value → Bool) → Option Value → Bool
is_given p none = false
is_given p (some v) = p v

-- A test of the type of an argument, false where there is none.
abbrev pub arg_is : (Value → Bool) → ℕ → Cmd Bool
arg_is p i = lua_arg i >>= λ o. pure (is_given p o)

-- lua_pushvalue at an argument
abbrev pub push_given : Option Value → Cmd T
push_given none = λ w. fault
push_given (some v) = lua_push v

-- lua_pushvalue at an argument
abbrev pub push_arg : ℕ → Cmd T
push_arg i = lua_arg i >>= push_given

abbrev pub lua_gettop : Cmd ℕ
lua_gettop w = ok (length w.stack - w.base) w

-- lua_settop, at a number of values that the frame has at least
abbrev pub lua_settop : ℕ → Cmd T
lua_settop n w = ok tt (record w { stack = drop (length w.stack - w.base - n) w.stack })

abbrev pub has_meta : ℕ → Option ℕ → Bool
has_meta a none = false
has_meta a (some b) = a == b

-- What luaL_checkudata finds in the registry under the name of the metatable.
abbrev pub named_meta : MetaTable → World → Option ℕ
named_meta sarray w = some w.sarray
named_meta stable w = some w.stable
named_meta s_uobj w = none

abbrev pub is_meta : Option ℕ → Option ℕ → Bool
is_meta none m = false
is_meta (some a) m = has_meta a m

-- User data with that metatable that is no vmWrenReference would be read as one.
abbrev pub as_ref : Value → Cmd ℕ
as_ref (ref r) = pure r
as_ref _ = λ w. fault

abbrev pub check_value : MetaTable → Value → Cmd ℕ
check_value m v w =
    if is_meta (named_meta m w) (meta_of v w) then as_ref v w else raised "bad argument" w

abbrev pub check_ref_arg : MetaTable → Option Value → Cmd ℕ
check_ref_arg m none = λ w. raised "bad argument" w
check_ref_arg m (some v) = check_value m v

abbrev pub lual_checkref : MetaTable → ℕ → Cmd ℕ
lual_checkref m i = lua_arg i >>= check_ref_arg m

-- luaL_checkudata(L, 1, LUA_NAME_WRENVM), at the one VM of the world
abbrev pub as_vm : Value → Cmd T
as_vm (udata n) w = if n == w.cvm.address then ok tt w else fault
as_vm _ w = fault

abbrev pub check_vm : Value → Cmd T
check_vm v w = if has_meta w.wrenvm (meta_of v w) then as_vm v w else raised "bad argument" w

abbrev pub check_vm_arg : Option Value → Cmd T
check_vm_arg none = λ w. raised "bad argument" w
check_vm_arg (some v) = check_vm v

unfoldable pub lual_checkvm : Cmd T
lual_checkvm = lua_arg 1 >>= check_vm_arg

pub lual_checkvm-ok :
    (w : World)
    → at_index (arg 1) w.base w.stack ≡ some (udata w.cvm.address)
    → w.metatables w.cvm.address ≡ some w.wrenvm
    → lual_checkvm w ≡ ok tt w
unfolding lual_checkvm
lual_checkvm-ok w here meta =
    ap (λ o. check_vm_arg o w) here
    ∙ if_true (has_meta w.wrenvm (w.metatables w.cvm.address)) _ _
        (ap (has_meta w.wrenvm) meta ∙ eq_self w.wrenvm)
    ∙ if_true (w.cvm.address == w.cvm.address) _ _ (eq_self w.cvm.address)
