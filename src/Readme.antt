-- ===== src/Readme.antt =====
-- planning/update_readme_compatibility.py: the table of the README that says how much of each
-- specification the driver passes.
pub mod Problem
pub mod Layers
pub mod Versions
pub mod Suites
pub mod Section
pub mod Scores
pub mod Note
pub mod Table
mod Tests
