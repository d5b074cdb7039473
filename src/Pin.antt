-- ===== src/Pin.antt =====
-- src/fido/cbor_client_pin.c: the authenticatorClientPIN command, with the PIN record, its retry
-- counter, and the key of the device that the PIN protects (src/fido/fido.c).
pub mod Device
pub mod Policy
pub mod Request
pub mod Attempt
pub mod NewPin
pub mod SetPin
pub mod ChangePin
pub mod GetToken
pub mod Command
pub mod Stored
pub mod Lock
pub mod Retry
pub mod Grant
pub mod Room
pub mod Tests
pub mod RoundTrip
