-- ===== src/Main/Handlers.antt =====
-- The branches of `_handle_command` in src/main.py, by the part of the program that they call.
pub mod System
pub mod Agents
pub mod Output
pub mod Compliance
pub mod Captcha
pub mod Llm
pub mod Settings
