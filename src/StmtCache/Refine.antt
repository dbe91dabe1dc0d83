-- ===== src/StmtCache/Refine.antt =====
-- The functions of src/stmt_cache.c do what src/stmt_cache.h promises.
pub mod Get
pub mod Put
pub mod Destroy
pub mod Cut
pub mod Rebuild
pub mod Run
pub mod Ownership
