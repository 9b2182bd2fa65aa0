-- ===== src/Room.antt =====
-- gameplay/Room: one room, with two players and the state machine of a game.
pub mod State
pub mod Queries
pub mod Ticks
pub mod Actions
pub mod Membership
pub mod Validity
pub mod Safety
pub mod Mailbox
pub mod Verdict
pub mod Reachability
pub mod Transitions
pub mod Game
pub mod Joining
pub mod Leaving
pub mod Frame
pub mod Outsiders
pub mod Strangers
pub mod Steady
pub mod Waiting
pub mod Idle
pub mod Ending
pub mod Answer
pub mod Winning
pub mod Input
pub mod Listening
pub mod Callbacks
pub mod Seats
pub mod Timing
pub mod Fixtures
mod Examples
