-- ===== src/Worker.antt =====
-- The worker thread (src/worker.c, include/worker.h): it reads the request of a new connection and
-- passes it to the rooms.
pub mod Machine
pub mod Livelock
pub mod Service
pub mod Visits
mod Tests
