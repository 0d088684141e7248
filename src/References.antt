-- ===== src/References.antt =====
-- planning/update_references.py: what a new commit of a pinned reference would change, and the moving
-- of a pin. A record of the reports is the fields of its JSON object.
pub mod Problem
pub mod Steps
pub mod Follow
pub mod Advance
pub mod Delta
pub mod Waypoint
pub mod Paths
pub mod Verify
mod Tests
