-- ===== src/Types.antt =====
-- src/types.rs: the public types and their conversion to and from the wire. `Event` has the
-- progress events and `Request` the install request.
pub mod Source
pub mod RunMode
pub mod UpdateState
pub mod SubprocessCmd
pub mod RecoveryStatus
pub mod Event
pub mod Request
pub mod Responses
pub mod UnitTests
