-- ===== src/Outbox.antt =====
-- The durable outbox (internal/x/outbox): its file store, the file names and the delivery engine.
-- `FileStore` is filestore.go, `Names` its file names, `Engine` is engine.go.
pub mod FileStore
pub mod Recovery
pub mod Names
pub mod Engine
pub mod Soundness
pub mod Delivery
