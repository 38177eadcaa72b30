-- ===== src/LuaSide/Handlers/Installing.antt =====
-- lcvmHandler of src/carrica.c, with hvmRef of src/cls_host.c behind it.
use carrica.Base.{
  ℕ, zero, suc, ◌<◌, ◌≡◌, ◌≢◌, ◌∙◌, refl, fun_ext, sym, ap, String, Bool, true, false,
  if◌then◌else◌, List, [], ◌∷◌, some, update, update_self, update_ne, update-update, if_true,
  if_false, Bool-cases, inl, inr, ◌&&◌, arith, length,
}
use mathlib.Core.Bool.{true≢false}
use carrica.Lua.Value.{Value, nil, str, func, table, udata, value_eq, is_key}
use carrica.Lua.Table.{Table, lookup, IsTable, next, first}
use carrica.Lua.Equality.{value_eq→≡, eq_self_key}
use carrica.Lua.Runtime.{Runtime}
use carrica.Lua.Api.{at_index, arg}
use carrica.Lua.Args.{from_lua, leave, lual_checkvm-ok}
use carrica.Wren.Value.{Wren}
use carrica.World.{World, ok, raised, and_then, ◌>>=◌}
use carrica.Marshal.{vm_is_valid}
use carrica.Host.{hvm_ref}
use carrica.Host.Refs.{IsHost, hvm_ref-found, referenced}
use carrica.TableClass.Traversal.{Chain, Chain-all}
use carrica.LuaSide.Handlers.{
  install_entry, is_string_value, is_function_value, lcvm_handler, handler_valid, handler_given,
  handler_loop,
}

module _ ⦃R : Runtime⦄ {h : ℕ} {w : World} (fuel : ℕ) (host : IsHost h w)
    (meta : w.metatables w.cvm.address ≡ some w.wrenvm) where
  valid-handler :
      (args : List Value)
      → at_index (arg 1) 0 args ≡ some (udata w.cvm.address)
      → lcvm_handler fuel (record w { stack = args; base = 0 })
        ≡ handler_valid fuel true (record w { stack = args; base = 0 })
  unfolding lcvm_handler
  valid-handler args here =
      ap (λ r. and_then r (λ _. vm_is_valid >>= handler_valid fuel))
        (lual_checkvm-ok (record w { stack = args; base = 0 }) here meta)
      ∙ ap (λ b. handler_valid fuel b (record w { stack = args; base = 0 })) host.valid

  handler_function-ok :
      (name : String) (f : ℕ)
      → from_lua (lcvm_handler fuel) (udata w.cvm.address ∷ str name ∷ func f ∷ []) w
        ≡ ok []
            (record w { tables = update w.tables h (R.raw_set (w.tables h) (str name) (func f)) })
  unfolding handler_valid handler_given
  handler_function-ok name f =
      ap (leave w) (valid-handler (func f ∷ str name ∷ udata w.cvm.address ∷ []) refl)
      ∙ rw host.handlers refl

abbrev framed : List Value → World → World
framed st w = record w { stack = st; base = 0 }

pub update_own : {A : Type 0} (f : ℕ → A) (a : ℕ) → update f a (f a) ≡ f
update_own f a = fun_ext λ b. ground arith

module _ ⦃R : Runtime⦄ where
  -- What an entry does to the table of handlers, and what all of them do in order.
  abbrev pub put : Bool → Value → Value → Table → Table
  put true k v t = R.raw_set t k v
  put false k v t = t

  abbrev pub is_handler : Value → Value → Bool
  is_handler k v = is_string_value k && is_function_value v

  abbrev pub installed : Table → Table → Table
  installed [] t = t
  installed ((k, v) ∷ rest) t = installed rest (put (is_handler k v) k v t)

  is_handler-is_key : (k v : Value) → is_handler k v ≡ true → is_key k ≡ true
  is_handler-is_key (str x) v e = refl
  is_handler-is_key _ v e = absurd (true≢false (sym e))

  module _ {h s : ℕ} {u : Value} where
    install_entry-ok :
        (b : Bool) (k v : Value) (w : World)
        → (b ≡ true → is_key k ≡ true)
        → install_entry 3 b (framed (v ∷ k ∷ table h ∷ table s ∷ u ∷ []) w)
          ≡ ok tt (
              framed
                (v ∷ k ∷ table h ∷ table s ∷ u ∷ [])
                (record w { tables = update w.tables h (put b k v (w.tables h)) }))
    install_entry-ok true k v w key = rw (key refl) refl
    install_entry-ok false k v w key = rw (update_own w.tables h) refl

    loop-installs :
        (c : Value) (rest src : Table) (fuel : ℕ) (w : World)
        → s ≢ h
        → w.tables s ≡ src
        → next c src ≡ first rest
        → Chain src rest
        → length rest < fuel
        → handler_loop fuel 3 (framed (c ∷ table h ∷ table s ∷ u ∷ []) w)
          ≡ ok tt (
              framed
                (table h ∷ table s ∷ u ∷ [])
                (record w { tables = update w.tables h (installed rest (w.tables h)) }))
    unfolding handler_loop
    loop-installs c rest src zero w ne same at chain lt = absurd (omega arith)
    loop-installs c [] src (suc f) w ne same at chain lt = rw (same, at, update_own w.tables h) refl
    loop-installs c ((k, v) ∷ rest) src (suc f) w ne same at (goes, chain) lt =
        let p : Table = put (is_handler k v) k v (w.tables h) in
        let v1 : World = record w { tables = update w.tables h p } in
        rw (same, at, install_entry-ok (is_handler k v) k v w (is_handler-is_key k v))
          (loop-installs k rest src f v1 ne (update_ne w.tables h s p ne ∙ same) goes chain
              (omega arith)
            ∙ ap (λ g. ok tt (framed (table h ∷ table s ∷ u ∷ []) (record w { tables = g })))
                (update-update w.tables h p (installed rest (update w.tables h p h))
                  ∙ ap (λ q. update w.tables h (installed rest q)) (update_self w.tables h p)))

module _ ⦃R : Runtime⦄ (name : String) (v : Value) (t : Table) where
  lookup-put_other :
      (b : Bool) (k : Value)
      → (b ≡ true → is_key k ≡ true)
      → value_eq (str name) k ≡ false
      → lookup (str name) (put b k v t) ≡ lookup (str name) t
  lookup-put_other true k key ne = R.lookup-raw_set t k v (str name) (key refl) ∙ if_false _ _ _ ne
  lookup-put_other false k key ne = refl

  lookup-put_self :
      (b : Bool) → lookup (str name) (put b (str name) v t) ≡ (if b then v else lookup (str name) t)
  lookup-put_self true =
      R.lookup-raw_set t (str name) v (str name) refl ∙ if_true _ _ _ (eq_self_key (str name) refl)
  lookup-put_self false = refl

  lookup-put_entry :
      (k : Value) (rest : Table)
      → k ≡ str name
      → lookup k rest ≡ nil
      → (if is_function_value (lookup (str name) rest)
          then lookup (str name) rest
          else lookup (str name) (put (is_handler k v) k v t))
        ≡ (if is_function_value v then v else lookup (str name) t)
  lookup-put_entry k rest e fresh = rw (e, rw e at fresh) (lookup-put_self (is_function_value v))

-- What an entry of the handlers is after those of the table of a call.
pub lookup-installed :
    ⦃R : Runtime⦄ (name : String) (rest t : Table)
    → IsTable rest
    → lookup (str name) (installed rest t) ≡ (
        if is_function_value (lookup (str name) rest)
        then lookup (str name) rest
        else lookup (str name) t)
lookup-installed name [] t is = refl
lookup-installed name ((k, v) ∷ rest) t (key, full, fresh, is) =
    lookup-installed name rest (put (is_handler k v) k v t) is
    ∙ elim (Bool-cases (value_eq (str name) k)) [
      | inl e ↦ rw e (lookup-put_entry name v t k rest (sym (value_eq→≡ (str name) k e)) fresh)
      | inr ne ↦
          rw (ne, lookup-put_other name v t (is_handler k v) k (is_handler-is_key k v) ne) refl
    ]

module _ ⦃R : Runtime⦄ {h : ℕ} {w : World} (fuel : ℕ) (host : IsHost h w)
    (meta : w.metatables w.cvm.address ≡ some w.wrenvm) where
  handler_table-ok :
      (s : ℕ)
      → s ≢ h
      → IsTable (w.tables s)
      → length (w.tables s) < fuel
      → from_lua (lcvm_handler fuel) (udata w.cvm.address ∷ table s ∷ []) w
        ≡ ok [] (record w { tables = update w.tables h (installed (w.tables s) (w.tables h)) })
  unfolding handler_valid handler_given
  handler_table-ok s ne is lt =
      ap (leave w) (valid-handler fuel host meta (table s ∷ udata w.cvm.address ∷ []) refl)
      ∙ rw
          (
            host.handlers,
            loop-installs {u = udata w.cvm.address} nil (w.tables s) (w.tables s) fuel w ne refl
                refl (Chain-all (w.tables s) is) lt,
          )
          refl

  -- In a valid VM, handler(t) with a table t of distinct keys, which is not the table of the handlers,
  -- returns, given fuel for one step more than t has entries: then every name under which t has a
  -- function stands for that function, and every other name for what it stood for before; the other
  -- tables, the stack and the registry are as before.
  pub lcvm_handler-table :
      (s : ℕ)
      → s ≢ h
      → IsTable (w.tables s)
      → length (w.tables s) < fuel
      → (t : Table) × (from_lua (lcvm_handler fuel) (udata w.cvm.address ∷ table s ∷ []) w
          ≡ ok [] (record w { tables = update w.tables h t }))
        × ((name : String)
            → lookup (str name) t ≡ (
                if is_function_value (lookup (str name) (w.tables s))
                then lookup (str name) (w.tables s)
                else lookup (str name) (w.tables h)))
  lcvm_handler-table s ne is lt = (
    installed (w.tables s) (w.tables h),
    handler_table-ok s ne is lt,
    λ name. lookup-installed name (w.tables s) (w.tables h) is,
  )

  -- In a valid VM, handler(name, f) makes f the handler of that name and keeps those of other names:
  -- Host.ref of the name then gives, whatever Wren has in the other slots, a positive number that
  -- stands for f.
  pub hvm_ref-lcvm_handler :
      (name : String) (f : ℕ)
      → (w' : World) × (from_lua
            (lcvm_handler fuel)
            (udata w.cvm.address ∷ str name ∷ func f ∷ [])
            w
          ≡ ok [] w')
        × ((other : String)
            → value_eq (str other) (str name) ≡ false
            → lookup (str other) (w'.tables h) ≡ lookup (str other) (w.tables h))
        × ((slots : ℕ → Wren)
            → slots 1 ≡ Wren.str name
            → hvm_ref (record w' { slots = slots })
              ≡ ok tt (referenced h (func f) (record w' { slots = slots })))
  hvm_ref-lcvm_handler name f =
      let t : Table = R.raw_set (w.tables h) (str name) (func f) in
      (
        record w { tables = update w.tables h t },
        handler_function-ok fuel host meta name f,
        λ other ne.
            ap (lookup (str other)) (update_self w.tables h t)
            ∙ lookup-put_other other (func f) (w.tables h) true (str name) (λ _. refl) ne,
        λ slots at.
            hvm_ref-found (record { valid = host.valid; handlers = host.handlers }) at
              (ap (lookup (str name)) (update_self w.tables h t)
                ∙ lookup-put_self name (func f) (w.tables h) true),
      )

-- The VM is tested before the other arguments are looked at.
pub lcvm_handler-invalid :
    ⦃R : Runtime⦄ (fuel : ℕ) (w : World)
    → at_index (arg 1) w.base w.stack ≡ some (udata w.cvm.address)
    → w.metatables w.cvm.address ≡ some w.wrenvm
    → w.cvm.vm ≡ false
    → lcvm_handler fuel w ≡ raised "carrica -> %s called on an invalid VM instance" w
unfolding lcvm_handler handler_valid
lcvm_handler-invalid fuel w here meta invalid =
    ap (λ r. and_then r (λ _. vm_is_valid >>= handler_valid fuel)) (lual_checkvm-ok w here meta)
    ∙ ap (λ b. handler_valid fuel b w) invalid
