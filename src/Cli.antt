-- ===== src/Cli.antt =====
-- src/bin/swupdate-client.rs: the command line. `Args` has the parsed arguments, `Output` what is
-- printed, `Shell` the actions of the command, `Monitor` the loop over progress events, `Join` the
-- streaming and the monitoring side by side, and `Run` the commands.
pub mod Args
pub mod Output
pub mod Shell
pub mod Monitor
pub mod Join
pub mod Run
pub mod Main
