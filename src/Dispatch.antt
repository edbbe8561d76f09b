-- ===== src/Dispatch.antt =====
-- internal/dispatch: the pipeline of one stream, and the periodic work beside it.
pub mod Breaker
pub mod Chunks
pub mod Publish
pub mod Pipeline
pub mod Listener
pub mod Loop
pub mod Janitor
pub mod Upkeep
pub mod DeadLetter
