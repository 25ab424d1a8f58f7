-- ===== src/Logging.antt =====
-- src/utils/logging.py: the buffer of recent log records, the crash report that is written with it,
-- and the handlers of the root logger. Time stamps, formatting and files are arguments.
pub mod Recent
pub mod Crash
