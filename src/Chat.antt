-- ===== src/Chat.antt =====
-- The chat room of one live lesson, internal/api/chatroom.
pub mod Client
pub mod Threads
pub mod Seen
pub mod Window
pub mod Bounds
pub mod Balance
pub mod Queues
pub mod Delivery
pub mod Quiet
pub mod Ended
pub mod Calls
pub mod Hub
pub mod Rooms
pub mod Reached
pub mod Tests
