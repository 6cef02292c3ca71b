-- ===== src/Comfy.antt =====
-- The control plane: app/repositories/comfy_repository.py and app/services/comfy_service.py.
pub mod Repository
pub mod Config
pub mod Client
pub mod Responses
pub mod Resolve
pub mod Hosts
pub mod Instances
pub mod Launch
pub mod Runs
pub mod Operations
pub mod Requests
pub mod Coherent
pub mod Tests
