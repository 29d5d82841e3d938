-- ===== src/Router.antt =====
-- middleware/router.rs, with the types of middleware/config.rs and middleware/types.rs: the choice of
-- an upstream route for a request, by its prompt's prefix and by load.
pub mod Types
pub mod Pressure
pub mod Text
pub mod Selection
pub mod InFlight
pub mod Accounting
pub mod Least
pub mod Choice
pub mod Prefix
pub mod History
pub mod Status
pub mod Order
pub mod CommonPrefix
