-- ===== src/App.antt =====
-- src/app: the services, their routing and their handling of messages.
pub mod Reply
pub mod Handlers
pub mod Broadcast
pub mod Service
pub mod Game
pub mod Chat
pub mod Router
pub mod Startup
