-- ===== src/Room.antt =====
-- The room thread (src/room.c, include/room.h): one game room as a state machine.
pub mod State
pub mod Lobby
pub mod Game
pub mod Machine
pub mod Safety
pub mod Rules
pub mod Loops
pub mod Scoring
pub mod Survivor
pub mod Overflow
pub mod Packets
pub mod Announcements
pub mod Ending
pub mod Opening
pub mod Course
pub mod WholeGame
pub mod Evening
pub mod Greeting
pub mod Buffer
pub mod Tests
mod LobbyTests
mod CourseTests
