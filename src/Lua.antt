-- ===== src/Lua.antt =====
-- What src/cls_array.c, src/cls_table.c, src/cls_host.c and src/vm.c use of Lua 5.1: its values, its
-- tables, what of it is a parameter here (`Runtime`), and its C API over an explicit stack (`Api`).
pub mod Value
pub mod Table
pub mod Equality
pub mod Runtime
pub mod Api
pub mod Args
