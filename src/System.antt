-- ===== src/System.antt =====
-- What the parts make together: a client's packet on its way through the worker or the room.
pub mod Joining
pub mod Answering
pub mod Questions
pub mod Freeing
pub mod Serving
pub mod Playing
pub mod Service
pub mod Tournaments
mod Tests
mod QuestionTests
mod SessionTests
mod ServiceTests
mod TournamentTests
