-- ===== src/Helper.antt =====
-- pkg/helper: merging of objects and of settings.
pub mod Merge
pub mod Settings
