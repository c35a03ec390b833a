-- ===== src/Security.antt =====
-- crates/syntropy-security: the audit ledger, the credential broker and the keystores.
pub mod Crypto
pub mod Ledger
pub mod KeyStore
pub mod Broker
