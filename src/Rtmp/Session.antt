-- ===== src/Rtmp/Session.antt =====
-- protocol/rtmp/core/conn_server.go: the commands of a session, as the server answers them.
pub mod Server
pub mod Answers
pub mod Commands
pub mod Phases
pub mod Steady
pub mod Stays
pub mod Termination
pub mod Crash
