-- ===== src/Server.antt =====
-- Text_Conferencing_Lab/server/server.c: the answers of the server. The functions that handle one
-- kind of request stand in the child modules.
pub mod Login
pub mod Session
pub mod Admin
pub mod Handler
pub mod Invariant
pub mod Safety
pub mod Deadlock
pub mod AdminSafety
pub mod Privilege
pub mod Reachable
pub mod Startup
pub mod Conference
pub mod Early
pub mod Queries
pub mod Threads
pub mod Main
pub mod Shutdown
pub mod Wire
pub mod Tests
