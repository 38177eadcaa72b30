-- ===== src/TableClass.antt =====
-- The class Table and its entries, src/cls_table.c: one command per foreign method.
pub mod Access
pub mod Walk
pub mod Entry
pub mod Lookup
pub mod Traversal
pub mod Listing
pub mod Lists
pub mod Protocol
