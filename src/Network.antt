-- ===== src/Network.antt =====
-- The server's threads together: its accept loop (src/server.c), its workers (src/worker.c) and its rooms
-- (src/room.c), which share one message queue (include/msg_struct.h) and take their rounds in any
-- order.
pub mod Queue
pub mod Steps
pub mod Workers
pub mod Safety
pub mod Kinds
pub mod Games
pub mod Fifo
