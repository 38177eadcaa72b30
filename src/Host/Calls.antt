-- ===== src/Host/Calls.antt =====
-- hvmCall0 to hvmCall8 of src/cls_host.c.
use carrica.Base.{
  ℕ, zero, suc, ◌<◌, ◌^◌, ◌≡◌, ◌≢◌, refl, String, true, if_true, ltb_of_lt, ◌∙◌, some, List, [],
  ◌∷◌, ◌++◌, length, append-nil, update, update_self, arith,
}
use carrica.Base.Int.{ℤ, pos, negsuc, in_int}
use carrica.Lua.Value.{Value, LuaType, t_function, lua_type, str, table, func, whole}
use carrica.Lua.Table.{lookup, int_key}
use carrica.Lua.Runtime.{Runtime, returned}
use carrica.Lua.Api.{split_args, lua_pop}
use carrica.Wren.Value.{Wren}
use carrica.World.{World, ok, pushed, ◌>>◌}
use carrica.Marshal.{wren_error}
use carrica.Marshal.Plain.{from_wren, push_slot-plain, to_wren, set_slot-top}
use carrica.Host.{hvm_call, hvm_ref, call_ref, call_found, push_slots}
use carrica.Host.Refs.{IsHost, referenced, hvm_ref-found}

-- Values pushed one after the other.
abbrev onto : List Value → List Value → List Value
onto [] st = st
onto (v ∷ vs) st = onto vs (v ∷ st)

split_args-suc :
    (n : ℕ) (acc s : List Value) {args st : List Value} {v : Value}
    → split_args n acc s ≡ some (args, v ∷ st)
    → split_args (suc n) acc s ≡ some (v ∷ args, st)
split_args-suc zero acc s e = ground arith
split_args-suc (suc n) acc [] e = cc
split_args-suc (suc n) acc (x ∷ s) e = split_args-suc n (x ∷ acc) s e

split_args-onto :
    (vs acc st : List Value) → split_args (length vs) acc (onto vs st) ≡ some (vs ++ acc, st)
split_args-onto [] acc st = refl
split_args-onto (v ∷ vs) acc st =
    split_args-suc (length vs) acc (onto vs (v ∷ st)) (split_args-onto vs acc (v ∷ st))

-- The arguments of a call: the values in the slots, all of which pass by value.
abbrev pub Args : World → List ℕ → List Value → Type 0
Args w [] [] = Unit {0}
Args w [] (v ∷ vs) = ⊥
Args w (s ∷ ss) [] = ⊥
Args w (s ∷ ss) (v ∷ vs) = (from_wren (w.slots s) ≡ some v) × Args w ss vs

push_slots-onto :
    (ss : List ℕ) (vs : List Value) (w : World)
    → Args w ss vs
    → push_slots ss w ≡ ok tt (record w { stack = onto vs w.stack })
unfolding push_slots
push_slots-onto [] [] w args = refl
push_slots-onto [] (v ∷ vs) w args = absurd args
push_slots-onto (s ∷ ss) [] w args = absurd args
push_slots-onto (s ∷ ss) (v ∷ vs) w (p, args) =
    rw (push_slot-plain s v w p) (push_slots-onto ss vs (pushed v w) args)

length-Args : (w : World) (ss : List ℕ) (vs : List Value) → Args w ss vs → length ss ≡ length vs
length-Args w [] [] args = refl
length-Args w [] (v ∷ vs) args = absurd args
length-Args w (s ∷ ss) [] args = absurd args
length-Args w (s ∷ ss) (v ∷ vs) (p, args) = omega (arith, length-Args w ss vs args)

call_ref-minus_one :
    ⦃R : Runtime⦄ (ss : List ℕ) (w : World)
    → call_ref ss (negsuc 0) w
      ≡ wren_error "Host.call() called with bad parameter, reference passed is invalid" w
unfolding call_ref
call_ref-minus_one ss w = refl

call_found-other :
    ⦃R : Runtime⦄ (ss : List ℕ) (t : LuaType) (w : World)
    → t ≢ t_function
    → call_found ss t w
      ≡ (lua_pop 2 >> wren_error "Host.call() failed, no handler could be found") w
unfolding call_found
call_found-other ss t_function w other = absurd (other refl)
call_found-other ss _ w other = refl

module _ ⦃R : Runtime⦄ {h : ℕ} {w : World} (host : IsHost h w) where
  hvm_call-ref :
      (z : ℤ) (ss : List ℕ)
      → w.slots 1 ≡ Wren.num (whole z)
      → in_int z ≡ true
      → hvm_call ss w ≡ call_ref ss z w
  unfolding hvm_call
  hvm_call-ref z ss slot fits = rw (if_true w.cvm.vm _ _ host.valid, slot, slot, fits)

  call_ref-other :
      (r : ℕ) (ss : List ℕ)
      → lua_type (lookup (int_key r) (w.tables h)) ≢ t_function
      → call_ref ss (pos r) w ≡ wren_error "Host.call() failed, no handler could be found" w
  unfolding call_ref
  call_ref-other r ss other = rw (
    host.handlers,
    call_found-other ss (lua_type (lookup (int_key r) (w.tables h)))
        (pushed (lookup (int_key r) (w.tables h)) (pushed (table h) w)) other,
  )

  call_ref-func :
      (r f : ℕ) (ss : List ℕ)
      → lookup (int_key r) (w.tables h) ≡ func f
      → call_ref ss (pos r) w ≡ call_found ss t_function (pushed (func f) (pushed (table h) w))
  unfolding call_ref
  call_ref-func r f ss at = rw (host.handlers, at)

  call_found-func :
      (f : ℕ) (ss : List ℕ) (args rets : List Value) (v : Value) (x : Wren) (w1 : World)
      → Args w ss args
      → R.call f args (pushed (table h) w) ≡ returned (v ∷ rets) w1
      → to_wren v ≡ some x
      → call_found ss t_function (pushed (func f) (pushed (table h) w))
        ≡ ok tt (record w1 { stack = w.stack; slots = update w1.slots 0 x })
  unfolding call_found
  call_found-func f ss args rets v x w1 given called plain = rw (
    push_slots-onto ss args (pushed (func f) (pushed (table h) w)) given,
    length-Args w ss args given,
    split_args-onto args [] (func f ∷ table h ∷ w.stack),
    append-nil,
    called,
    set_slot-top 0 v x (record w1 { stack = v ∷ table h ∷ w.stack }) (table h ∷ w.stack) refl plain,
  )

  -- In a valid VM, a call through a positive int under which the handlers have a function calls that
  -- function with the arguments, which pass by value, in order. If it returns, and its first result
  -- passes by value, that result is in slot 0, and the stack is as before.
  pub hvm_call_lem :
      (r f : ℕ) (ss : List ℕ) (args rets : List Value) (v : Value) (x : Wren) (w1 : World)
      → w.slots 1 ≡ Wren.num (whole (pos r))
      → r < 2 ^ 31
      → lookup (int_key r) (w.tables h) ≡ func f
      → Args w ss args
      → R.call f args (pushed (table h) w) ≡ returned (v ∷ rets) w1
      → to_wren v ≡ some x
      → hvm_call ss w ≡ ok tt (record w1 { stack = w.stack; slots = update w1.slots 0 x })
  hvm_call_lem r f ss args rets v x w1 slot small at given called plain =
      hvm_call-ref (pos r) ss slot (ltb_of_lt r (2 ^ 31) small)
      ∙ call_ref-func r f ss at
      ∙ call_found-func f ss args rets v x w1 given called plain

  -- In a valid VM, the reference -1, which Host.ref gives for an unknown name, is refused with an
  -- error before anything else changes.
  pub hvm_call-minus_one :
      (ss : List ℕ)
      → w.slots 1 ≡ Wren.num (whole (negsuc 0))
      → hvm_call ss w
        ≡ wren_error "Host.call() called with bad parameter, reference passed is invalid" w
  hvm_call-minus_one ss slot = hvm_call-ref (negsuc 0) ss slot refl ∙ call_ref-minus_one ss w

  -- In a valid VM, an int from 0 under which the handlers have no function is refused with an error
  -- before anything else changes.
  pub hvm_call-no_handler :
      (r : ℕ) (ss : List ℕ)
      → w.slots 1 ≡ Wren.num (whole (pos r))
      → r < 2 ^ 31
      → lua_type (lookup (int_key r) (w.tables h)) ≢ t_function
      → hvm_call ss w ≡ wren_error "Host.call() failed, no handler could be found" w
  hvm_call-no_handler r ss slot small other =
      hvm_call-ref (pos r) ss slot (ltb_of_lt r (2 ^ 31) small) ∙ call_ref-other r ss other

-- What Wren does between two calls of foreign methods: it writes the slots.
abbrev pub with_slots : (ℕ → Wren) → World → World
with_slots s w = record w { slots = s }

-- In a valid VM, at a name under which the handlers have a function, Host.ref gives a number, and
-- Host.call with that number, after the slots were written, calls that function with the arguments
-- in order and puts its first result in slot 0, the stack being as before the call. Conditions: the
-- number fits an int, the arguments and the first result pass by value, and the function returns.
pub hvm_call-hvm_ref :
    ⦃R : Runtime⦄ {h : ℕ} {w : World} {name : String} (f : ℕ) (s : ℕ → Wren) (ss : List ℕ)
    (args rets : List Value) (v : Value) (x : Wren) (w1 : World)
    → IsHost h w
    → w.slots 1 ≡ Wren.str name
    → lookup (str name) (w.tables h) ≡ func f
    → suc (R.fresh_ref (w.tables h)) < 2 ^ 31
    → s 1 ≡ (referenced h (func f) w).slots 0
    → Args (with_slots s (referenced h (func f) w)) ss args
    → R.call f args (pushed (table h) (with_slots s (referenced h (func f) w)))
      ≡ returned (v ∷ rets) w1
    → to_wren v ≡ some x
    → (hvm_ref w ≡ ok tt (referenced h (func f) w))
      × (hvm_call ss (with_slots s (referenced h (func f) w))
          ≡ ok tt (record w1 { stack = w.stack; slots = update w1.slots 0 x }))
hvm_call-hvm_ref ⦃R⦄ {h} {w} f s ss args rets v x w1 host slot found small ref given called plain =
    (
      hvm_ref-found host slot found,
      hvm_call_lem (record { valid = host.valid; handlers = host.handlers })
          (suc (R.fresh_ref (w.tables h))) f ss args rets v x w1 ref small
          (rw (update_self w.tables h) (R.lookup-with_ref (w.tables h) (func f) refl)) given called
          plain,
    )
