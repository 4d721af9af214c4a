-- ===== src/Examples.antt =====
-- Tests of the definitions, and uses of the theorems at concrete inputs.
mod Sample
mod Objects
mod Requests
mod Threads
mod Callbacks
mod Shutdowns
mod Servers
mod Worlds
mod Plays
mod Conversations
mod Tests
