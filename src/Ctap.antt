-- ===== src/Ctap.antt =====
-- The constants of src/fido/ctap.h and src/fido/files.h.
pub mod Err
pub mod Permission
pub mod Ef
