-- ===== src/World.antt =====
-- The state that the C functions share: the Lua state with its stack and registry, the reference
-- objects between the two languages, the slots of the Wren VM, and the carricaVM that ties them.
-- A command runs to a value, raises a Lua error (longjmp), breaks the contract of an API (fault) or
-- runs out of fuel.
use carrica.Base.{ℕ, String, Bool, true, false, Option, List, ◌∷◌, ◌≡◌, if◌then◌else◌}
use carrica.Base.Int.{ℤ}
use carrica.Lua.Value.{Value, Light}
use carrica.Lua.Table.{Table}
use carrica.Wren.Value.{Wren}
use carrica.Vms.{System}

-- VM_WREN_SHARE_ARRAY and so on
pub data Share : Type 0 where
  share_array share_table share_lsobj share_table_entry : Share

-- vmWrenReference: the user data on the Lua side. `handle` is none until it is set; `meta` is
-- the metatable of the user data. It is no longer allocated when Lua has collected it.
pub record Ref : Type 0 where
  pub kind : Share
  pub ref_count : ℤ
  pub handle : Option Wren
  pub meta : Option ℕ
  pub allocated : Bool

-- vmWrenReReference: the foreign object on the Wren side, with the ref that it stands for.
pub record ReRef : Type 0 where
  pub kind : Share
  pub pref : Option ℕ

-- carricaVM, as far as the classes use it: the address of the struct, `vm` is `cvm->vm != NULL` and
-- `lua` is `cvm->L != NULL`, the address of the copied name, and carricaTypeHandles. Its id and its modules are in `World.system`.
pub record Cvm : Type 0 where
  pub address : ℕ
  pub vm : Bool
  pub lua : Bool
  pub name : ℕ
  pub wren_name : Option String
  pub array_handle : Option Wren
  pub table_handle : Option Wren
  pub table_entry_handle : Option Wren
  pub load_module : Bool

-- vmWrenMethod: the name, and the class and the signature behind its two handles.
pub record Method : Type 0 where
  pub name : String
  pub class : Wren
  pub signature : String

pub record World : Type 0 where
  -- the Lua stack, its top first
  pub stack : List Value
  -- how many values lie below the frame of the running C function
  pub base : ℕ
  -- the tables at their addresses, and the next free address
  pub tables : ℕ → Table
  pub new_table : ℕ
  pub registry : Light → Value
  -- the metatables in the registry under LUA_NAME_SARRAY, LUA_NAME_STABLE and LUA_NAME_WRENVM
  pub sarray : ℕ
  pub stable : ℕ
  pub wrenvm : ℕ
  -- the metatables of the user data that are no vmWrenReference
  pub metatables : ℕ → Option ℕ
  pub refs : ℕ → Ref
  pub new_ref : ℕ
  -- the Wren VM: foreign objects, slots, lists, top level variables, and the error of the fiber
  pub rerefs : ℕ → ReRef
  pub new_reref : ℕ
  pub slots : ℕ → Wren
  pub lists : ℕ → List Wren
  pub new_list : ℕ
  pub modules : String → Bool
  pub variables : String → String → Option Wren
  pub abort : Option Wren
  -- cvm->methodHash by the text of the name, and the methods that are allocated
  pub method_hash : List (String × ℕ)
  pub methods : ℕ → Option Method
  pub new_method : ℕ
  -- how many C closures Lua has made
  pub new_closure : ℕ
  pub cvm : Cvm
  -- the table of VMs and the shared modules; this VM is the one at `cvm.address`
  pub system : System
  -- the next free address of user data and of a copied name, and the table of the globals
  pub new_udata : ℕ
  pub new_name : ℕ
  pub globals : ℕ

-- The world with one more value on the stack, or with another stack.
abbrev pub pushed : Value → World → World
pushed v w = record w { stack = v ∷ w.stack }

pub data Run (A : Type 0) : Type 0 where
  ok : A → World → Run A
  raised : String → World → Run A
  fault : Run A
  out_of_fuel : Run A

abbrev pub Cmd : Type 0 → Type 0
Cmd A = World → Run A

abbrev pub pure : {A : Type 0} → A → Cmd A
pure = ok

abbrev pub lual_error : {A : Type 0} → String → Cmd A
lual_error = raised

module _ {A B : Type 0} where
  abbrev pub and_then : Run A → (A → Cmd B) → Run B
  and_then (ok a w) k = k a w
  and_then (raised e w) k = raised e w
  and_then fault k = fault
  and_then out_of_fuel k = out_of_fuel

  infixl 5 ◌>>=◌ ◌>>◌
  abbrev pub ◌>>=◌ : Cmd A → (A → Cmd B) → Cmd B
  m >>= k = λ w. and_then (m w) k

  abbrev pub ◌>>◌ : Cmd A → Cmd B → Cmd B
  m >> n = m >>= λ _. n

-- What holds of the world if a run returns; `λ _. ⊥` says that it does not return.
abbrev pub OnReturn : {A : Type 0} → (World → Type 0) → Run A → Type 0
OnReturn P (ok a w) = P w
OnReturn P (raised e w) = Unit
OnReturn P fault = Unit
OnReturn P out_of_fuel = Unit

pub OnReturn-and_then :
    {A B : Type 0} (P : World → Type 0) (r : Run A) (k : A → Cmd B)
    → ((a : A) (w : World) → OnReturn P (k a w))
    → OnReturn P (and_then r k)
OnReturn-and_then P (ok a w) k h = h a w
OnReturn-and_then P (raised e w) k h = tt
OnReturn-and_then P fault k h = tt
OnReturn-and_then P out_of_fuel k h = tt

pub of_return :
    {A : Type 0} (P : World → Type 0) {r : Run A} {a : A} {w : World}
    → OnReturn P r
    → r ≡ ok a w
    → P w
of_return P h e = rw e at h

-- What follows a run that does not return is not reached.
pub no_return-and_then :
    {A B : Type 0} (r : Run A) (k : A → Cmd B)
    → OnReturn (λ _. ⊥) r
    → OnReturn (λ _. ⊥) (and_then r k)
no_return-and_then (ok a w) k h = absurd h
no_return-and_then (raised e w) k h = tt
no_return-and_then fault k h = tt
no_return-and_then out_of_fuel k h = tt

pub OnReturn-then :
    {A B : Type 0} (P Q : World → Type 0) (r : Run A) (k : A → Cmd B)
    → OnReturn P r
    → ((a : A) (w : World) → P w → OnReturn Q (k a w))
    → OnReturn Q (and_then r k)
OnReturn-then P Q (ok a w) k h step = step a w h
OnReturn-then P Q (raised e w) k h step = tt
OnReturn-then P Q fault k h step = tt
OnReturn-then P Q out_of_fuel k h step = tt

pub OnReturn-if :
    {A : Type 0} (P : World → Type 0) (b : Bool) (x y : Run A)
    → OnReturn P x
    → OnReturn P y
    → OnReturn P (if b then x else y)
OnReturn-if P true x y h k = h
OnReturn-if P false x y h k = k
