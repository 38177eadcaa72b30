-- ===== src/Lib.antt =====
-- carrica runs Wren virtual machines under Lua 5.1: C functions move values between the stack of
-- Lua and the slots of Wren, and implement the Wren classes Array, Table and Host over Lua tables.
--
-- The parts of the program, and the files that model them (paths from the repository's root):
--   * World: the state that the C functions share, as one record that commands pass on.
--     vmWrenReference is Ref, vmWrenReReference is ReRef, carricaVM is Cvm (src/vm.h). A command
--     ends with a value, with a Lua error (a longjmp), with a fault (the contract of an API is
--     broken: behaviour that C leaves undefined), or out of fuel.
--   * Lua: the values, tables and C API of Lua 5.1 as its manual gives them; Wren: the slot API of
--     wren.h. Neither is code of this repository. What their documentation leaves open (the order
--     of a table, the border of a table with holes, the numbers luaL_ref picks, what a Lua function
--     does) is a parameter, the record Lua.Runtime, with the documented laws as fields.
--     Tests.Instance is a concrete Runtime that meets them.
--   * Marshal: wrenError, luaGetMetaTableType, wrenSetSlotFromLua, luaPushFromWrenSlot and
--     wrenSlotIsLuaSafe of src/vm.c, lcvmGetClassHandle of src/carrica.c.
--   * Reference: avmLuaNewArray, tvmLuaNewTable, hold, release and finalize, and the table in the
--     registry behind a foreign object.
--   * Array: src/cls_array.c, one command per foreign method, avmGet being avm_get and so on.
--   * Host: src/cls_host.c in the same way; hvmCall0 to hvmCall8 share one text.
--   * TableClass: src/cls_table.c, the methods of Table (tvmGet is tvm_get) and of TableEntry
--     (tevm_key).
--   * Modules: the tables of modules of src/vm.c, which grow by doubling, and the installation of a
--     module; Vms: the table of VMs, the shared modules, vmBegin, vmNew, vmRelease and vmEnd, as
--     far as they work on these tables, and lcInstallModule of src/carrica.c. Their state is
--     System, a part of World, and a write outside the allocated cells is a fault, none.
--     Modules.Growth.Holds says that a table is well formed and holds a list of modules.
--   * Lifecycle: vmNew and vmRelease of src/vm.c on the container of a VM, the registry, the
--     methods and the foreign objects; with Vms they are the whole functions. The part of a memset that
--     concerns the tables is done where Vms takes over, since nothing reads it in between. What
--     wrenNewVM makes, and which foreign objects wrenFreeVM finalizes, are arguments.
--     Lifecycle.Opening, Closing and Cycle are about newVM and release of src/carrica.c,
--     Lifecycle.Refused about every method of a VM that was released.
--   * Binding: the lists of foreign methods and classes at the end of the three class files, and
--     the searches vmBindForeignMethodInternal and vmBindForeignClassInternal of src/vm.c.
--   * LuaSide: functions of src/carrica.c that Lua calls, each in a frame of its own:
--     LuaSide.Objects has the methods of shared arrays and tables (lcaHold is lca_hold),
--     LuaSide.Creation newArray and newTable, LuaSide.Handlers handler, LuaSide.Methods the methods
--     of Wren that Lua gets, calls and frees (vmGetMethod, vmFreeMethod and vmCallMethodFromLua of
--     src/vm.c are there too), LuaSide.Scripts setLoadFunction and interpret,
--     LuaSide.Containers newVM, release, renew and the collection of a VM, LuaSide.Library
--     luaopen_carrica with the lists of functions, LuaSide.Debug setDebugEmit, and
--     LuaSide.VmMethods the methods and settings that read or set one thing. What snprintf, wrenCall, wrenInterpret
--     and luaL_dostring do are arguments. LuaSide.Steps is the relation of what both languages do
--     to the counts of a shared object.
--   * Callbacks: vmWriteFn, vmErrorFn, vmLoadModule, vmBindForeignMethodFn and vmBindForeignClassFn
--     of src/vm.c; what snprintf writes, and what a binary module binds, are arguments.
--   * Threads: the locks and conditions of src/xthread.c, and its conversions of a time.
--   * Tests: a concrete world, and the theorems at it.
-- The foreign methods read the receiver in slot 0, push its table from the registry, work on the
-- stack, and leave their answer in slot 0. A stack index -k of the source is written k. An Array is
-- regular (IsArray) if its table holds the items of a list without nils at 1, 2, and so on.
--
-- Loops run on the number of rounds left where the source counts; index_loop, shift_loop and
-- remove_loop, whose counter may stand still, run on fuel: shift_loop fails for every fuel, and
-- index_loop needs one step more than the array has items. The traversals of a Table, and of the table that handler gets, run on fuel too: one
-- step more than the table has entries is enough.
--
-- Not modelled: the functions of src/xthread.c that make and join threads and count processors,
-- which only pass their arguments on; the Wren VM under lib/wren and uthash.h, copies of other
-- projects; the texts in Wren and Lua that are included as strings; the messages that are printed,
-- as src/vm.h defines VM_DEBUG.
--
-- Left aside: metamethods; failed allocations; the checks of stack and slot space; the overflow of
-- an int by a length of 2 ^ 31 items; the sign of zero; threads (CARRICA_USE_THREADS is not
-- defined) and the debug output. There is one Wren VM in a world, the one
-- that newVM made last; the others are in its table of VMs. The library is loaded once. User data that Lua
-- has collected is gone (LuaSide.Objects.lua_free): what reads or writes it in Wren is a fault, and
-- its address is not used again. The casts
-- from double to int are faults out of range.
pub mod Base
pub mod Lua
pub mod Wren
pub mod World
pub mod Marshal
pub mod Reference
pub mod Array
pub mod TableClass
pub mod Host
pub mod Modules
pub mod Vms
pub mod Binding
pub mod Lifecycle
pub mod LuaSide
pub mod Callbacks
pub mod Threads
pub mod Tests
