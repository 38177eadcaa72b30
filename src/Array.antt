-- ===== src/Array.antt =====
-- The class Array, src/cls_array.c: a table on the Lua side with the keys 1 to n, behind a foreign
-- object on the Wren side with the indices 0 to n - 1.
pub mod Access
pub mod Build
pub mod Edit
pub mod Iteration
pub mod Faults
pub mod Joins
pub mod Listing
pub mod Searching
pub mod Appends
pub mod Items
pub mod Writes
pub mod Index
pub mod Reads
