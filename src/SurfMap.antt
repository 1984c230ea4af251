-- ===== src/SurfMap.antt =====
-- The correspondence of meshes across panes: SurfMap/src and SurfMap/include of the repository.
pub mod Dual
pub mod FacetId
pub mod Borders
mod Tests
