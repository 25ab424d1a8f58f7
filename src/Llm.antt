-- ===== src/Llm.antt =====
-- src/llm: the clients of language models that answer in JSON.
pub mod Fences
pub mod Providers
pub mod Factory
