-- ===== src/LuaSide/Debug.antt =====
-- src/carrica.c: lcSetDebugEmit and lcEmitDebug, with the variable EMIT of src/vm.c, which is there when
-- VM_DEBUG is defined. What vsnprintf writes, and what luaL_unref leaves in a table, are arguments.
use carrica.Base.{
  ℕ, zero, suc, ◌≡◌, refl, String, Bool, true, false, List, [], ◌∷◌, update, update_self,
}
use carrica.Base.Int.{ℤ, pos, negsuc}
use carrica.Lua.Value.{Value, Light, str, func, table}
use carrica.Lua.Table.{Table}
use carrica.Lua.Runtime.{Runtime, returned}
use carrica.Lua.Api.{
  T, lua_push, lua_pop, lua_index, lua_pushvalue, lua_pushlightuserdata, lua_gettable_registry,
  lua_rawgeti, lua_call, lual_ref, raw_table, write_table,
}
use carrica.Lua.Args.{arg_is}
use carrica.LuaSide.Handlers.{is_function_value}
use carrica.World.{World, ok, Cmd, pure, ◌>>=◌, ◌>>◌}

-- EMIT: printf, or lcEmitDebug
pub data EmitFunction : Type 0 where
  print_f emit_debug : EmitFunction

-- mEmitRef and EMIT
pub record Emitter : Type 0 where
  pub emit_ref : ℤ
  pub emit : EmitFunction

-- As both are at the start.
abbrev pub no_emitter : Emitter
no_emitter = record { emit_ref = negsuc 0; emit = print_f }

abbrev pub push_emit_table : Cmd T
push_emit_table = lua_pushlightuserdata Light.emit_ref >> lua_gettable_registry

module _ ⦃R : Runtime⦄ where
  -- A reference other than -1: the text goes to its function.
  abbrev pub emit_to : ℤ → String → Cmd T
  emit_to (negsuc zero) text = pure tt
  emit_to r text = do
    push_emit_table
    lua_rawgeti 1 r
    lua_push (str text)
    v ← lua_call 1
    lua_pop 1

  -- lcEmitDebug, at the text of vsnprintf
  unfoldable pub lc_emit_debug : Emitter → String → Cmd T
  lc_emit_debug e text = emit_to e.emit_ref text

  -- if (mEmitRef != -1) luaL_unref(L, -1, mEmitRef);
  abbrev pub unref_old : (Table → ℤ → Table) → ℤ → Cmd T
  unref_old unref (negsuc zero) = pure tt
  unref_old unref r = do a ← lua_index 1 >>= raw_table; λ w. write_table a (unref (w.tables a) r) w

  abbrev pub set_emit : Emitter → Bool → Cmd Emitter
  set_emit e false = pure (record e { emit = print_f })
  set_emit e true = do
    lua_pushvalue 2
    r ← lual_ref 2
    pure (record { emit_ref = r; emit = emit_debug })

  unfoldable pub lc_set_debug_emit : (Table → ℤ → Table) → Emitter → Cmd Emitter
  lc_set_debug_emit unref e = do
    push_emit_table
    unref_old unref e.emit_ref
    given ← arg_is is_function_value 1
    e' ← set_emit e given
    lua_pop 1
    pure e'

  -- setDebugEmit(f) in a Lua whose debug output is printed, and whose registry has the table of the
  -- library for it: text that is emitted then goes to f, and when f returns, the stack is as before.
  pub lc_emit_debug-lc_set_debug_emit :
      (unref : Table → ℤ → Table) (f a : ℕ) (w : World)
      → w.base ≡ 0
      → w.stack ≡ func f ∷ []
      → w.registry Light.emit_ref ≡ table a
      → (e : Emitter) × (w' : World) × (lc_set_debug_emit unref no_emitter w ≡ ok e w')
        × (e.emit ≡ emit_debug)
        × (w'.stack ≡ w.stack)
        × ((text : String) (st : List Value) (vs : List Value) (u : World)
            → R.call f (str text ∷ []) (record w' { stack = table a ∷ st }) ≡ returned vs u
            → lc_emit_debug e text (record w' { stack = st }) ≡ ok tt (record u { stack = st }))
  unfolding lc_set_debug_emit lc_emit_debug
  lc_emit_debug-lc_set_debug_emit unref f a w base args here =
      let t : Table = R.with_ref (w.tables a) (func f) in
      (
        record { emit_ref = pos (suc (R.fresh_ref (w.tables a))); emit = emit_debug },
        record w { tables = update w.tables a t },
        rw (here, base, args) refl,
        refl,
        refl,
        λ text st vs u ran.
            rw (here, update_self w.tables a t, R.lookup-with_ref (w.tables a) (func f) refl, ran)
              refl,
      )
