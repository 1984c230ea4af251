-- ===== src/Mesh.antt =====
-- The utilities for meshes: SolverUtils/src/Mesh.C and SolverUtils/include/Mesh.H of the repository.
pub mod Table
pub mod Dual
pub mod Neighbors
pub mod Renumber
pub mod Modes
pub mod Orient
pub mod Coordinates
mod Tests
