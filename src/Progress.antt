-- ===== src/Progress.antt =====
-- src/progress.rs: the client of the progress socket. `Version` reads the daemon's version and
-- chooses the message layout by it, and `Client` has the handshake and the receipt of events.
pub mod Version
pub mod Client
pub mod UnitTests
