-- ===== src/Plugins/Reputation.antt =====
-- plugins/reputation: the parsers of the reputation feeds.
pub mod Feodo
pub mod Spamhaus
pub mod Tor
