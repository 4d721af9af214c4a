-- ===== src/EndToEnd.antt =====
-- Components together: Callback_HTTP of the thread, the actor's events, and the requests and body parts
-- that they are handed.
pub mod Body
pub mod Wire
pub mod Routing
pub mod Conversation
pub mod Parameters
