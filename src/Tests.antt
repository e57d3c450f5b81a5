-- ===== src/Tests.antt =====
-- Concrete states, runs of the operations on them, and the theorems at such states.
mod World
mod Wire
mod Store
mod Sessions
mod Channel
mod Handshake
mod Arrivals
mod Partner
mod Beacon
mod Typing
mod Start
mod Conversation
mod System
mod FirstTalk
mod Unread
mod Unplaced
