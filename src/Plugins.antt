-- ===== src/Plugins.antt =====
-- The feed parsers under plugins/.
pub mod Parsers
pub mod Mirror
pub mod Clean
pub mod Registered
pub mod Cloud
pub mod Reputation
pub mod Iptoasn
