-- ===== src/Net.antt =====
-- src/net: the receive buffer, a connection's two directions, and the completion port's service.
pub mod ReceiveBuffer
pub mod Connection
pub mod IoService
pub mod AdminServer
pub mod Acceptor
pub mod Connector
