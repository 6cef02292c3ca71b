-- ===== src/Comfyctl.antt =====
-- The command line `comfyctl`, the package comfyctl.
pub mod Catalog
pub mod Paths
pub mod Machine
pub mod Requirements
pub mod Tools
pub mod Processes
pub mod Install
pub mod Start
pub mod Stop
pub mod Status
pub mod Probe
pub mod Main
pub mod Contract
pub mod Sample
pub mod Tests
pub mod Witnesses
