-- ===== src/LuaSide/Methods/Calling.antt =====
-- callMethod of src/carrica.c: the arguments of a call from Lua in the slots of the Wren method, and its
-- result.
use carrica.Base.{
  String, ℕ, suc, ◌+◌, ◌-◌, ◌≡◌, ◌∙◌, refl, ap, none, some, List, [], ◌∷◌, length, get_elem?,
  update, update_self, arith, true,
}
use carrica.Lua.Value.{Value, str, func, udata}
use carrica.Lua.Runtime.{Runtime}
use carrica.LuaSide.Sharing.{wren_ensure_slots-ok}
use carrica.LuaSide.VmMethods.{on_valid_vm-ok}
use carrica.Lua.Api.{or_fault, T, at, at_index, arg}
use carrica.Lua.Args.{from_lua, reversed, leave}
use carrica.Wren.Value.{Wren}
use carrica.World.{and_then, Method, World, ok, Cmd}
use carrica.Marshal.{wren_slot_is_lua_safe}
use carrica.Marshal.Plain.{AllPlain, from_wren, set_slot-at, push_slot-plain}
use carrica.Marshal.Safety.{returns, wren_slot_is_lua_safe-lua_push_from_wren_slot}
use carrica.LuaSide.Methods.{
  call_allocated, hash_find, vm_get_method, lcvm_get_method, call_method, vm_call_method_from_lua,
  set_slots,
}

-- The slots from i on take the values of a list.
abbrev pub filled : ℕ → List Wren → (ℕ → Wren) → ℕ → Wren
filled i [] s = s
filled i (x ∷ xs) s = filled (suc i) xs (update s i x)

get_elem?-reversed :
    (xs acc : List Value) (k : ℕ) → get_elem? (reversed xs acc) (length xs + k) ≡ get_elem? acc k
get_elem?-reversed [] acc k = ap (get_elem? acc) (omega arith)
get_elem?-reversed (x ∷ xs) acc k =
    ap (get_elem? (reversed xs (x ∷ acc))) (omega arith) ∙ get_elem?-reversed xs (x ∷ acc) (suc k)

length-reversed : (xs acc : List Value) → length (reversed xs acc) ≡ length xs + length acc
length-reversed [] acc = omega arith
length-reversed (x ∷ xs) acc = length-reversed xs (x ∷ acc) ∙ omega arith

-- The argument behind those of a list, above which the list `acc` of values lies.
pub arg-reversed :
    (v : Value) (vs acc : List Value)
    → at_index (arg (suc (length acc))) 0 (reversed (v ∷ vs) acc) ≡ some v
arg-reversed v vs acc =
    let place : length (reversed vs (v ∷ acc)) + 1 - 0 - suc (length acc) ≡ suc (length vs + 0) =
      omega (arith, length-reversed vs (v ∷ acc)) in
    ap (λ k. at k (reversed vs (v ∷ acc))) place ∙ get_elem?-reversed vs (v ∷ acc) 0

set_slots-filled :
    (vs acc : List Value) (xs : List Wren) (w : World)
    → AllPlain vs xs
    → set_slots (length vs) (suc (length acc)) (record w { stack = reversed vs acc; base = 0 })
      ≡ ok tt (record w {
        stack = reversed vs acc;
        base = 0;
        slots = filled (suc (length acc)) xs w.slots;
      })
unfolding set_slots
set_slots-filled [] acc [] w plain = refl
set_slots-filled [] acc (x ∷ xs) w plain = absurd plain
set_slots-filled (v ∷ vs) acc [] w plain = absurd plain
set_slots-filled (v ∷ vs) acc (x ∷ xs) w (first, plain) =
    rw
      (set_slot-at (suc (length acc)) (arg (suc (length acc))) v x
        (record w { stack = reversed (v ∷ vs) acc; base = 0 }) (arg-reversed v vs acc) first)
      (set_slots-filled vs (v ∷ acc) xs (record w { slots = update w.slots (suc (length acc)) x })
        plain)

safe_slot :
    (slot : ℕ) (y : Value) (w : World)
    → from_wren (w.slots slot) ≡ some y
    → wren_slot_is_lua_safe slot w ≡ ok true w
safe_slot slot y w plain =
    wren_slot_is_lua_safe-lua_push_from_wren_slot slot w
    ∙ ap (λ r. ok (returns r) w) (push_slot-plain slot y w plain)

module _ (wren_call : String → Cmd T) where
  call-allocated :
      (w : World) (p top : ℕ) (m : Method)
      → w.cvm.vm ≡ true
      → w.methods p ≡ some m
      → vm_call_method_from_lua wren_call p top w ≡ call_allocated wren_call top m w
  unfolding vm_call_method_from_lua
  call-allocated w p top m valid allocated =
      ap
        (λ r.
          and_then (and_then r (λ _ x. or_fault (x.methods p) x)) (call_allocated wren_call top))
        (wren_ensure_slots-ok w valid)
      ∙ ap (λ o. and_then (or_fault o w) (call_allocated wren_call top)) allocated

  -- A call from Lua of a method that getMethod gave, with arguments that pass by value: Wren is called
  -- with the class in slot 0 and the arguments in order behind it, and when that call returns with a
  -- value in slot 0 that passes by value, this is the one result.
  pub call_method-filled :
      {u : World} (w : World) (p : ℕ) (vs : List Value) (xs : List Wren) (class : Wren)
      (name signature : String) (y : Value)
      → w.cvm.vm ≡ true
      → w.methods p ≡ some (record { name = name; class = class; signature = signature })
      → AllPlain vs xs
      → wren_call signature (record w {
        stack = reversed vs [];
        base = 0;
        slots = filled 1 xs (update w.slots 0 class);
      })
        ≡ ok tt u
      → from_wren (u.slots 0) ≡ some y
      → from_lua (call_method wren_call p) vs w
        ≡ ok (y ∷ []) (record u { stack = w.stack; base = w.base })
  unfolding call_method
  call_method-filled {u} w p vs xs class name signature y valid allocated plain runs result =
      let count : length (reversed vs []) - 0 ≡ length vs = omega (arith, length-reversed vs []) in
      rw
        (
          count,
          call-allocated (record w { stack = reversed vs []; base = 0 }) p (length vs)
              (record { name = name; class = class; signature = signature }) valid allocated,
          set_slots-filled vs [] xs (record w { slots = update w.slots 0 class }) plain,
          runs,
          safe_slot 0 y u result,
          push_slot-plain 0 y u result,
        )
        refl

-- The world after a method is stored under its name, with its class in slot 0.
abbrev pub stored : (key signature : String) → Wren → World → World
stored key signature class w = record w {
  slots = update w.slots 0 class;
  method_hash = (key, w.new_method) ∷ w.method_hash;
  methods =
      update w.methods w.new_method
        (some (record { name = key; class = class; signature = signature }));
  new_method = suc w.new_method;
}

-- The same, with one more closure made.
abbrev pub given : (key signature : String) → Wren → World → World
given key signature class w = record (stored key signature class w) {
  new_closure = suc w.new_closure;
}

module _ (snprintf : String → String → String → String) (wren_call : String → Cmd T) where
  pub made_method :
      (m c signature : String) (class : Wren) (w : World)
      → w.modules m ≡ true
      → w.variables m c ≡ some class
      → hash_find (snprintf m c signature) w.method_hash ≡ none
      → vm_get_method snprintf m c signature w
        ≡ ok (some w.new_method) (stored (snprintf m c signature) signature class w)
  unfolding vm_get_method
  made_method m c signature class w there top new = rw (new, there, top, top) refl

  -- getMethod in a valid VM, of a method with a new name whose class is a top level variable, gives a
  -- function; it can be called with arguments that pass by value: Wren is called with the signature, the
  -- class in slot 0 and the arguments in order behind it, and when that call returns with a value in
  -- slot 0 that passes by value, this is the one result.
  pub call_method-lcvm_get_method :
      ⦃R : Runtime⦄ (closure : (p n : ℕ) → ℕ) (m c signature : String) (class : Wren) (w : World)
      → w.cvm.vm ≡ true
      → w.metatables w.cvm.address ≡ some w.wrenvm
      → w.modules m ≡ true
      → w.variables m c ≡ some class
      → hash_find (snprintf m c signature) w.method_hash ≡ none
      → (p : ℕ) × (w' : World) × (from_lua
            (lcvm_get_method snprintf closure)
            (udata w.cvm.address ∷ str m ∷ str c ∷ str signature ∷ [])
            w
          ≡ ok (func (closure p w.new_closure) ∷ []) w')
        × ((vs : List Value) (xs : List Wren) (u : World) (y : Value)
            → AllPlain vs xs
            → wren_call signature (record w' {
              stack = reversed vs [];
              base = 0;
              slots = filled 1 xs (update w'.slots 0 class);
            })
              ≡ ok tt u
            → from_wren (u.slots 0) ≡ some y
            → from_lua (call_method wren_call p) vs w'
              ≡ ok (y ∷ []) (record u { stack = w'.stack; base = w'.base }))
  unfolding lcvm_get_method
  call_method-lcvm_get_method closure m c signature class w valid meta there top new =
      let f : World = record w {
        stack = str signature ∷ str c ∷ str m ∷ udata w.cvm.address ∷ [];
        base = 0;
      } in
      (
        w.new_method,
        given (snprintf m c signature) signature class w,
        ap (leave w) (on_valid_vm-ok _ f refl meta valid)
            ∙ rw (made_method m c signature class f there top new) refl,
        λ vs xs u y plain runs result.
            call_method-filled wren_call (given (snprintf m c signature) signature class w)
              w.new_method vs xs class (snprintf m c signature) signature y valid
              (update_self w.methods w.new_method _) plain runs result,
      )
