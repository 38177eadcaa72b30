-- ===== src/Wren/Api.antt =====
-- The slot API of wren.h, by what its comments say of each function. A read of a slot that holds
-- another type, and the use of a handle that was never set, is a fault. There are slots enough.
use carrica.Base.{
  ℕ, suc, String, Bool, true, false, Option, none, some, [], ◌∷◌, ◌++◌, get_elem?, length, update,
  if◌then◌else◌,
}
use carrica.Base.Int.{ℤ, in_int}
use carrica.Lua.Value.{Number, whole, fraction, infinity, not_a_number}
use carrica.Lua.Api.{T, or_fault}
use carrica.Wren.Value.{Wren, WrenType, wren_type}
use carrica.World.{ReRef, ok, fault, Cmd, pure, ◌>>=◌, ◌>>◌}

abbrev pub wren_set_slot : ℕ → Wren → Cmd T
wren_set_slot i v w = ok tt (record w { slots = update w.slots i v })

abbrev pub wren_get_slot_type : ℕ → Cmd WrenType
wren_get_slot_type i w = ok (wren_type (w.slots i)) w

abbrev pub as_number : Wren → Cmd Number
as_number (Wren.num n) = pure n
as_number _ = λ _. fault

abbrev pub wren_get_slot_double : ℕ → Cmd Number
wren_get_slot_double i w = as_number (w.slots i) w

-- (int)d, which is undefined where the truncated value is no int
abbrev pub int_in_range : ℤ → Cmd ℤ
int_in_range z = if in_int z then pure z else λ _. fault

abbrev pub cast_int : Number → Cmd ℤ
cast_int (whole z) = int_in_range z
cast_int (fraction z _) = int_in_range z
cast_int (infinity _) = λ _. fault
cast_int not_a_number = λ _. fault

abbrev pub wren_get_slot_int : ℕ → Cmd ℤ
wren_get_slot_int i = wren_get_slot_double i >>= cast_int

abbrev pub as_string : Wren → Cmd String
as_string (Wren.str s) = pure s
as_string _ = λ _. fault

abbrev pub wren_get_slot_string : ℕ → Cmd String
wren_get_slot_string i w = as_string (w.slots i) w

abbrev pub as_foreign : Wren → Cmd ℕ
as_foreign (Wren.foreign n) = pure n
as_foreign _ = λ _. fault

abbrev pub wren_get_slot_foreign : ℕ → Cmd ℕ
wren_get_slot_foreign i w = as_foreign (w.slots i) w

abbrev pub wren_set_slot_handle : ℕ → Option Wren → Cmd T
wren_set_slot_handle i none = λ _. fault
wren_set_slot_handle i (some v) = wren_set_slot i v

-- The class at slot c gets a new foreign object, here with the fields that the caller writes.
abbrev pub is_class : Wren → Cmd T
is_class (Wren.unknown _) = pure tt
is_class _ = λ _. fault

abbrev pub new_foreign : ℕ → ReRef → Cmd ℕ
new_foreign i r w = ok w.new_reref (record w {
  slots = update w.slots i (Wren.foreign w.new_reref);
  rerefs = update w.rerefs w.new_reref r;
  new_reref = suc w.new_reref;
})

abbrev pub wren_set_slot_new_foreign : ℕ → ℕ → ReRef → Cmd ℕ
wren_set_slot_new_foreign i c r = (λ w. is_class (w.slots c) w) >> new_foreign i r

abbrev pub as_list : Wren → Cmd ℕ
as_list (Wren.list a) = pure a
as_list _ = λ _. fault

abbrev pub slot_list : ℕ → Cmd ℕ
slot_list i w = as_list (w.slots i) w

abbrev pub wren_get_list_count : ℕ → Cmd ℕ
wren_get_list_count i = slot_list i >>= λ a w. ok (length (w.lists a)) w

abbrev pub wren_get_list_element : (list_slot index element_slot : ℕ) → Cmd T
wren_get_list_element i n e = do
  a ← slot_list i
  v ← λ w. or_fault (get_elem? (w.lists a) n) w
  wren_set_slot e v

-- wrenInsertInList(vm, list_slot, -1, element_slot): at the end
abbrev pub wren_insert_in_list : (list_slot element_slot : ℕ) → Cmd T
wren_insert_in_list i e = do
  a ← slot_list i
  λ w. ok tt (record w { lists = update w.lists a (w.lists a ++ w.slots e ∷ []) })

abbrev pub wren_set_slot_new_list : ℕ → Cmd T
wren_set_slot_new_list i w = ok tt (record w {
  slots = update w.slots i (Wren.list w.new_list);
  lists = update w.lists w.new_list [];
  new_list = suc w.new_list;
})

-- The fiber stops with the value of the slot once the foreign method has returned.
abbrev pub wren_abort_fiber : ℕ → Cmd T
wren_abort_fiber i w = ok tt (record w { abort = some (w.slots i) })

abbrev pub wren_has_module : String → Cmd Bool
wren_has_module m w = ok (w.modules m) w

abbrev pub is_some : {A : Type 0} → Option A → Bool
is_some none = false
is_some (some _) = true

abbrev pub wren_has_variable : String → String → Cmd Bool
wren_has_variable m v w = ok (is_some (w.variables m v)) w

abbrev pub wren_get_variable : String → String → ℕ → Cmd T
wren_get_variable m v i = (λ w. or_fault (w.variables m v) w) >>= wren_set_slot i
