-- ===== src/Health.antt =====
-- What the client makes of `/api/status`: the words for the armed state, the pipeline's stages, the
-- summary of the live page, the verdict of the settings page, the pills of the live tile and the
-- rungs of the watchdog.
pub mod Status
pub mod WatchState
pub mod Pipeline
pub mod Summary
pub mod Verdict
pub mod Pills
pub mod Wedge
mod Tests
