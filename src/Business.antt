-- ===== src/Business.antt =====
-- business.py: the requests that the game accepts, and the answers of its Lua scripts.
pub mod Tables
pub mod Roles
pub mod Ids
pub mod Wire
pub mod Intel
pub mod Battle
pub mod Select
pub mod Status
pub mod Scene
pub mod March
pub mod Verify
pub mod Commit
pub mod Monster
pub mod Queue
pub mod Yeti
pub mod Constants
