-- ===== src/Sdk.antt =====
-- sdk/provider: the packages that a provider is built with.
pub mod Errors
