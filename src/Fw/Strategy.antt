-- ===== src/Fw/Strategy.antt =====
-- The forwarding strategies: best-route, multicast and BIER (ndnd/fw/fw/bestroute.go,
-- multicast.go, bier_strategy.go).
pub mod Replies
pub mod BestRoute
pub mod Multicast
pub mod Bier
