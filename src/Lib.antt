-- ===== src/Lib.antt =====
-- Pico FIDO, the firmware of a FIDO2 and U2F security key: the parts that guard its secrets.
-- src/fido of the repository holds the program; a command arrives as a CBOR map
-- (src/fido/cbor.c), its handler reads the parameters, checks them against the state of the
-- device, changes the flash and the globals, and answers. The handlers below are whole functions
-- from the state to an answer and a new state.
--
-- Exec gives that shape: a step takes the state and returns it with a result, which is an answer,
-- an error code, or a fault for an access outside an array. What was written before an error
-- stays written, as in the C code, which leaves by goto.
--
-- Platform stands for the code that is not in the repository (pico-keys-sdk, TinyCBOR and Mbed
-- TLS): the flash files, the CBOR reader and writer, random numbers and cryptography are the
-- fields of a record, with the few laws that the proofs need, such as that a file holds what a
-- successful write put there. Platform/Memory is an instance with files in memory on which the
-- witnesses run. Ctap has the constants of src/fido/ctap.h and src/fido/files.h.
--
-- Authorization is src/fido/object_authorization.c: the session epoch and the facts of a context.
-- Token is the pinUvAuthToken of src/fido/cbor_client_pin.c with its timers and flags.
--
-- Cbor is the loop by which the handlers read their parameters, over the macros of
-- src/fido/ctap2_cbor.h: keys in ascending order, and a key without a branch whose value is not
-- skipped. Protocol is the PIN/UV auth protocols one and two of src/fido/cbor_client_pin.c.
--
-- Pin is the command cbor_client_pin of the same file: Pin/Device has the state and the key of
-- the device (load_keydev and encrypt_keydev_f1 of src/fido/fido.c), Pin/Request the parameters,
-- Pin/Policy the tests of a new PIN, Pin/Attempt the try of a PIN that changePIN and
-- getPinUvAuthToken both make, Pin/NewPin, Pin/SetPin, Pin/ChangePin and Pin/GetToken the
-- subcommands, Pin/Command the whole. The time is an argument of the command.
--
-- LargeBlobs is the command cbor_large_blobs of src/fido/cbor_large_blobs.c: reading fragments of
-- the stored array, and collecting a new one in a buffer of 2048 bytes.
--
-- Oath is the OATH application of src/fido/oath.c: Oath/Keys the encryption of its secrets,
-- Oath/Code the access code (SET CODE and VALIDATE), Oath/OtpPin its PIN, Oath/Credentials
-- storing and deleting credentials (PUT and DELETE), Oath/Calculate the code for a challenge,
-- Oath/Hotp CALCULATE with the counter of a HOTP credential (the size of the answer buffer,
-- USB_BUFFER_SIZE, is a parameter), Oath/Rename RENAME and GET CREDENTIAL, Oath/Listing LIST and
-- CALCULATE ALL, Oath/Reset RESET. A command answers a status word, or a fault. Of the files only
-- the 255 numbers of credentials are searched, in their order.
--
-- Management is src/fido/management.c: the configuration that is stored in EF_DEV_CONF, its
-- report and its effect on the applications, for the build with a keyboard.
--
-- Otp is src/fido/otp.c, for the build with a button: Otp/Slot is how a slot is stored, encrypted
-- or as older firmware left it, Otp/Status the answers on the slots, Otp/Configure, Otp/Swap and
-- Otp/Calculate the commands, Otp/Command their choice by P1, Otp/Button what a press types and
-- how the counters go on, Otp/Hid the frames of the keyboard reports. What button_wait returns,
-- and the time, are arguments. Otp/Guard is the argument on access codes, over all commands. The
-- bytes of res_APDU are a list that a command writes over; where the buffer is that of the
-- reports, a list that has grown is a fault.
--
-- Resident is src/fido/resident_container.c: a resident credential as a manifest and four records
-- with two places each, over the object store of pico-keys-sdk, whose functions are the fields of
-- the record Objects. Resident/Load finds the manifest in use, Resident/Record seals and opens
-- one record, Resident/Update creates and updates, Resident/Access reads and deletes. Memory that
-- calloc does not give, and files that cannot be deleted, are not modelled. Resident/Keeps is
-- about an update that does not reach its end.
--
-- Not modelled: the credentials and the commands on them (src/fido/credential.c,
-- cbor_make_credential.c, cbor_get_assertion.c, cbor_cred_mgmt.c and the rest), U2F, the start of
-- the device, and the concurrency of the two cores. No model runs on fuel: every loop is a
-- recursion on the list it reads, or on the number of files, bits or digits that it goes through.
pub mod Prelude
pub mod Exec
pub mod Authorization
pub mod Token
pub mod Platform
pub mod Ctap
pub mod Cbor
pub mod Protocol
pub mod LargeBlobs
pub mod Pin
pub mod Oath
pub mod Management
pub mod Otp
pub mod Resident
