-- ===== src/State.antt =====
-- retroshade/src/state.rs, by its three entry points.
pub mod Build
pub mod Reset
pub mod Binaries
pub mod Lives
