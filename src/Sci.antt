-- ===== src/Sci.antt =====
-- src/sci, src/sci_ls_icd and src/cloud_ixl/c/cloud_ixl_scils_adapter.c: the telegrams of the
-- application layer.
pub mod Telegram
pub mod Icd
pub mod Scils
pub mod Adapter
