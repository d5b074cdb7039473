-- ===== src/LargeBlobs.antt =====
-- src/fido/cbor_large_blobs.c: the authenticatorLargeBlobs command, which hands out the stored array
-- in fragments, and collects a new one in fragments before it is stored.
pub mod Defs
pub mod Accepted
pub mod Inv
pub mod Transfer
pub mod Upload
pub mod Tests
