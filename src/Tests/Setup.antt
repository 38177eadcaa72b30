-- ===== src/Tests/Setup.antt =====
-- A world with two Arrays, [10, 20, 30] and [40], a Wren list, and two handlers.
use carrica.Base.{ℕ, ◌+◌, none, some, false, true, List, [], ◌∷◌, ◌==◌, replicate, if◌then◌else◌}
use carrica.Base.Int.{pos}
use carrica.Lua.Value.{Value, Light, nil, str, table, func, num, whole}
use carrica.Lua.Table.{Table}
use carrica.Wren.Value.{Wren}
use carrica.World.{World, Cvm, share_array}
use carrica.Modules.{Module, no_module, empty}
use carrica.Vms.{System, self_mod}

abbrev pub self : Module
self = self_mod "class Host {}"

-- One shared module, and the VM at the address 0 in the table of VMs.
abbrev pub own_system : System
own_system = record {
  shared = record { cells = self ∷ replicate 7 no_module; max = 8; count = 1 };
  vmt = record { cells = some 0 ∷ replicate 7 none; max = 8; count = 1 };
  vms = λ v. record { valid = true; id = 0; modules = empty };
}

abbrev pub int : ℕ → Value
int n = num (whole (pos n))

abbrev pub wren_int : ℕ → Wren
wren_int n = Wren.num (whole (pos n))

abbrev pub first_items : List Value
first_items = int 10 ∷ int 20 ∷ int 30 ∷ []

abbrev pub second_items : List Value
second_items = int 40 ∷ []

abbrev tables : ℕ → Table
tables n =
    if n == 0
    then (str "write", func 7) ∷ (str "error", func 8) ∷ (int 1, func 7) ∷ []
    else if n == 1
    then (int 1, int 10) ∷ (int 2, int 20) ∷ (int 3, int 30) ∷ []
    else if n == 2
    then (int 1, int 40) ∷ []
    else if n == 9
    then (str "print", func 5) ∷ (str "error", func 6) ∷ []
    else []

abbrev registry : Light → Value
registry (Light.ref n) = table (n + 1)
registry (Light.cvm n) = table 0
registry _ = nil

abbrev cvm : Cvm
cvm = record {
  address = 0;
  vm = true;
  lua = true;
  name = 0;
  wren_name = none;
  array_handle = none;
  table_handle = none;
  table_entry_handle = none;
  load_module = false;
}

-- The slots are the receiver in slot 0 and the arguments.
abbrev pub world : (ℕ → Wren) → World
world slots = record {
  stack = str "code" ∷ [];
  base = 0;
  tables = tables;
  new_table = 3;
  registry = registry;
  sarray = 100;
  stable = 101;
  wrenvm = 102;
  metatables = λ n. if n == 0 then some 102 else none;
  refs = λ n. record {
    kind = share_array;
    ref_count = pos 1;
    handle = none;
    meta = some 100;
    allocated = true;
  };
  new_ref = 2;
  rerefs = λ n. record { kind = share_array; pref = some n };
  new_reref = 2;
  slots = slots;
  lists = λ n. wren_int 5 ∷ wren_int 6 ∷ [];
  new_list = 1;
  modules = λ m. true;
  variables = λ m v. some (Wren.unknown 0);
  abort = none;
  method_hash = [];
  methods = λ p. none;
  new_method = 0;
  new_closure = 0;
  cvm = cvm;
  system = own_system;
  new_udata = 1;
  new_name = 1;
  globals = 9;
}

abbrev pub args : Wren → Wren → Wren → ℕ → Wren
args x y z i = if i == 0 then x else if i == 1 then y else if i == 2 then z else Wren.null
