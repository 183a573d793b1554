-- ===== src/Services.antt =====
-- src/services: the registry of stores per tenant, and the service that encrypts with them.
pub mod KeyService
pub mod CryptoService
pub mod Registry
pub mod Growth
pub mod Caches
pub mod Tenants
