-- ===== src/Wren.antt =====
-- What the sources use of Wren: its values and slots (`Value`), and the slot API of wren.h (`Api`).
pub mod Value
pub mod Api
