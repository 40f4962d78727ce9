-- ===== src/Relay.antt =====
-- packages/sdk/src/relay/hub: the relay hub.
pub mod BoundedMap
pub mod AuthLeases
pub mod BoundedSet
