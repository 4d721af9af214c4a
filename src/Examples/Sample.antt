-- ===== src/Examples/Sample.antt =====
-- A small engine and a small libwebsockets that keep the documentation, and calls to try them on.
pub mod Engine
pub mod Headers
pub mod Reply
pub mod Calls
