-- ===== src/Routing.antt =====
-- internal/routing: the in-memory routing snapshot, how it is built, swapped and torn down.
pub mod State
pub mod Build
pub mod Swap
pub mod Rebuild
pub mod Routes
pub mod Users
pub mod Fresh
pub mod FreshRoutes
pub mod Distinct
pub mod Notify
pub mod Live
pub mod LiveRebuild
pub mod Replace
pub mod Outcomes
pub mod Reach
pub mod HotSwitch
pub mod Rows
pub mod Durable
pub mod SwapUser
pub mod Tests
