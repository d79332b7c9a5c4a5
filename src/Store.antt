-- ===== src/Store.antt =====
-- The store of src/store.c.
pub mod Registry
pub mod Apply
