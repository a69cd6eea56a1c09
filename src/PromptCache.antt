-- ===== src/PromptCache.antt =====
-- src/patchloop/prompt_cache: what a prompt epoch publishes of the memory.
pub mod Publication
