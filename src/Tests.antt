-- ===== src/Tests.antt =====
-- Concrete inputs, and the theorems at them.
mod Instance
mod Arrays
mod Hosts
mod LuaCalls
mod Systems
mod TableCalls
mod Waits
mod Lifecycles
mod Setup
