-- ===== src/Follower.antt =====
-- spx_core/src/roles/follower.rs, without the event dispatch, and roles/util.rs: the names of the
-- first three children, which have the definitions.
mod Ballots
mod Entries
mod Campaigns
pub mod Votes
pub mod Writes
pub mod Replication
pub mod Anchors
pub mod Progress
pub mod Boards
unfoldable pub use Ballots.*
unfoldable pub use Entries.*
unfoldable pub use Campaigns.*
