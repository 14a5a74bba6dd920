-- ===== src/Client.antt =====
-- The client (src/client_logic.c, src/client.c, include/client_logic.h, include/client_ui.h): its
-- requests, how it reads the server's packets, its menus, its game loop, its
-- waiting room and its `main`.
pub mod Logic
pub mod Reception
pub mod Requests
pub mod Menu
pub mod Choices
pub mod Errors
pub mod Play
pub mod Rounds
pub mod Verdict
pub mod Retry
pub mod Waiting
pub mod Main
pub mod Phases
pub mod Sessions
pub mod Windows
pub mod Clicks
pub mod Drawing
pub mod Seats
pub mod Texts
mod Tests
mod MenuTests
mod ScreenTests
mod WaitTests
