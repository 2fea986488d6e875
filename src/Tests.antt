-- ===== src/Tests.antt =====
-- Runs on concrete inputs, by the part of the program.
mod Wire
mod Links
mod Queues
mod Database
mod Services
mod Connections
mod Lanes
mod Client
mod Threads
mod Workers
mod Files
mod Sockets
