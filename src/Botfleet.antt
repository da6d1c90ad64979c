-- ===== src/Botfleet.antt =====
-- backend/services/botfleet: the bots that send orders to an engine.
pub mod Sample
pub mod Order
pub mod Generator
pub mod Orders
pub mod Protocol
pub mod Fleet
pub mod Session
