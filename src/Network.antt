-- ===== src/Network.antt =====
-- The network of a node: src/network/handshake.cpp and src/network/hosts.cpp. A handler that the strand or
-- a channel calls is an event, with the error code that it is called with.
pub mod Hosts
pub mod Handshake
