-- ===== src/Leader.antt =====
-- spx_core/src/roles/leader.rs and models/log_position.rs, without the event dispatch: the names of
-- the first four children, which have the definitions.
mod State
mod Requests
mod Writes
mod Answers
pub mod Quorum
pub mod Responses
pub mod Contacts
pub mod Dispatch
pub mod Promises
pub mod Timeouts
pub mod Progress
pub mod Boards
unfoldable pub use State.*
unfoldable pub use Requests.*
unfoldable pub use Writes.*
unfoldable pub use Answers.*
