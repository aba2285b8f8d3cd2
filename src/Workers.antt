-- ===== src/Workers.antt =====
-- backend/background_workers: the handler of commit intents.
pub mod CommitIntents
