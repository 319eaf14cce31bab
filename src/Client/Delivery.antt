-- ===== src/Client/Delivery.antt =====
-- To whom the relay passes what (client/src/relay.ts).
pub mod History
pub mod Remembers
pub mod Frames
pub mod Parties
