-- ===== src/Com.antt =====
-- The component object manager: COM/src and COM/include of the repository.
pub mod ElementType
pub mod Facets
pub mod StructuredNodes
pub mod UnstructuredNodes
pub mod PaneNodes
pub mod Connectivity
pub mod ObjectMap
pub mod DataType
pub mod DataItem
pub mod ItemSizes
pub mod Pane
pub mod ItemSet
pub mod Window
mod Tests
