-- ===== src/Domain.antt =====
-- Domain/include/Domain and Domain/src: results and errors, permissions, the entities.
pub mod Result
pub mod Permissions
pub mod Entities
