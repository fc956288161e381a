-- ===== src/Control.antt =====
-- src/control.rs: the client of the control socket. `Messages` has the messages that it sends,
-- `Replies` what it reads in the answers, `Client` its methods, and `Install` the streaming of an
-- image behind an accepted install request.
pub mod Messages
pub mod Replies
pub mod Client
pub mod Install
pub mod Calls
