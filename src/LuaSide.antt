-- ===== src/LuaSide.antt =====
-- src/carrica.c: the functions that Lua calls. Each runs in a frame of its own (`Lua.Args.from_lua`).
pub mod Objects
pub mod Containers
pub mod Creation
pub mod Debug
pub mod Sorting
pub mod Library
pub mod Sharing
pub mod Passing
pub mod Handlers
pub mod VmMethods
pub mod Scripts
pub mod Methods
pub mod Alive
pub mod Steps
