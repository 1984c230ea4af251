-- ===== src/Sim.antt =====
-- The simulation scheduler: SIM/src and SIM/include of the repository, one module for each stage.
pub mod Item
pub mod Register
pub mod Ddg
pub mod Topo
pub mod Lifecycle
pub mod Coupling
pub mod Tests
