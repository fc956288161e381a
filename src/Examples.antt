-- ===== src/Examples.antt =====
-- Tests on concrete inputs, and one use of each theorem that has conditions.
mod Wire
mod Requests
mod Exchanges
mod Events
mod Sockets
mod Commands
mod Joins
mod Programs
mod Sessions
mod Endings
mod Installs
mod Stopped
mod Stores
mod Watching
