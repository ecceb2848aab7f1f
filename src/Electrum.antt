-- ===== src/Electrum.antt =====
-- src/electrumclient.cpp: the client of an Electrum server.
pub mod Server
pub mod Socks5
pub mod Requests
pub mod Calls
mod Address
mod Handshake
mod Connect
mod Fifo
mod Run
mod Ordered
mod Cells
mod Owned
mod Answers
mod Tests
