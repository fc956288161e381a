-- ===== src/Wire.antt =====
-- src/wire.rs: the binary protocol. `Constants` has its numbers, `MsgType` and `RecoveryStatus`
-- the two enums, `Layout` the structs as `#[repr(C)]` lays them out, `Cstring` the C strings,
-- `Message` the control messages and `ProgressMsg` the progress messages.
pub mod Constants
pub mod MsgType
pub mod RecoveryStatus
pub mod Layout
pub mod Cstring
pub mod Message
pub mod ProgressMsg
pub mod UnitTests
