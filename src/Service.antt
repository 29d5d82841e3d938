-- ===== src/Service.antt =====
-- The service of aggregator/service: what it states of a verified upstream, how a request is forwarded
-- to its candidates, and the receipt of what came back.
pub mod Errors
pub mod Claims
pub mod Sessions
pub mod Forward
pub mod SseChatId
pub mod Failover
pub mod Finalize
pub mod Direct
