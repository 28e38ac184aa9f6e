-- ===== src/Pinex.antt =====
-- src/routing/pinex: routing of messages to pinex targets, and the codec of libs/pinex. Each child says
-- which file it is about.
pub mod RouteMapper
pub mod Text
pub mod RoutingList
pub mod Router
pub mod Codec
mod Tests
