-- ===== src/Main.antt =====
-- src/main.py: the dispatcher of the sidecar's commands over all the other parts, and its loop.
pub mod State
pub mod Coded
pub mod Sound
pub mod Handlers
pub mod Dispatch
pub mod Start
