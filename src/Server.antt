-- ===== src/Server.antt =====
-- The server's process (src/server.c): what it acquires at its start, what it releases, and how it
-- accepts connections.
pub mod Process
pub mod Release
pub mod Loop
pub mod Startup
pub mod Accepting
mod Tests
