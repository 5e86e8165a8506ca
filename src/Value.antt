-- ===== src/Value.antt =====
-- The value engine of src/value_engine.cpp: the seasons and their bounds, the lattice of halfspaces and the
-- test of a point against it, the advance from season to season, and the corrections of the encoder.
pub mod Seasons
pub mod Facets
pub mod Lattice
pub mod Project
pub mod Poles
pub mod Evaluate
pub mod Advance
pub mod Growth
pub mod Feedback
mod Tests
