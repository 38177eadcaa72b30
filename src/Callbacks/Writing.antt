-- ===== src/Callbacks/Writing.antt =====
-- vmWriteFn of src/vm.c: what a handler for "write" gets, and the stack behind it.
use carrica.Base.{ℕ, ◌≡◌, ◌≢◌, ◌∙◌, refl, if_true, String, List, [], ◌∷◌}
use carrica.Lua.Value.{Value, LuaType, lua_type, t_function, str, table, func}
use carrica.Lua.Table.{lookup}
use carrica.Lua.Runtime.{Runtime, returned}
use carrica.World.{World, ok, pushed}
use carrica.Host.Refs.{IsHost}
use carrica.Callbacks.{vm_write_fn, call_field, emit}

-- The function that a handler for "write" runs, and its arguments: a function gets the text; of a
-- table it is the field of the same name, which gets the table and the text.
pub data Handles (w : World) (text : String) : Value → ℕ → List Value → Type 0 where
  is_function : (f : ℕ) → Handles w text (func f) f (str text ∷ [])
  has_method :
      (f t : ℕ)
      → lookup (str "write") (w.tables t) ≡ func f
      → Handles w text (table t) f (table t ∷ str text ∷ [])

call_field-other :
    ⦃R : Runtime⦄ (text : String) (t : LuaType) (w : World)
    → t ≢ t_function
    → call_field text t w ≡ ok tt w
call_field-other text t_function w ne = absurd (ne refl)
call_field-other text _ w ne = refl

module _ ⦃R : Runtime⦄ {h : ℕ} {w : World} (text : String) (host : IsHost h w) where
  valid-write : vm_write_fn text w ≡ emit "write" text w
  unfolding vm_write_fn
  valid-write = if_true w.cvm.vm _ _ host.valid

  -- In a valid VM whose handler for "write" is a function, or a table with such a method, text that
  -- Wren prints goes to that function, and when it returns, the stack is as before.
  pub vm_write_fn-Handles :
      {v : Value} {f : ℕ} {args vs : List Value} {u : World}
      → Handles w text v f args
      → lookup (str "write") (w.tables h) ≡ v
      → R.call f args (record w { stack = v ∷ table h ∷ w.stack }) ≡ returned vs u
      → vm_write_fn text w ≡ ok tt (record u { stack = w.stack })
  vm_write_fn-Handles (is_function f) found ran = valid-write ∙ rw (host.handlers, found, ran) refl
  vm_write_fn-Handles (has_method f t field) found ran =
      valid-write ∙ rw (host.handlers, found, field, ran) refl

  -- In a valid VM whose handler for "write" is a table without such a method, nothing is called, and
  -- the table of the handlers stays on the stack.
  pub vm_write_fn-no_method :
      (t : ℕ)
      → lookup (str "write") (w.tables h) ≡ table t
      → lua_type (lookup (str "write") (w.tables t)) ≢ t_function
      → vm_write_fn text w ≡ ok tt (pushed (table h) w)
  vm_write_fn-no_method t found other =
      valid-write
      ∙ rw
          (
            host.handlers,
            found,
            call_field-other text (lua_type (lookup (str "write") (w.tables t)))
                (record w {
                  stack = lookup (str "write") (w.tables t) ∷ table t ∷ table h ∷ w.stack;
                })
                other,
          )
          refl
