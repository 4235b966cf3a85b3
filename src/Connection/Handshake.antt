-- ===== src/Connection/Handshake.antt =====
-- connection_net_interface.hpp: the validation of a client. `Weakness` is about the puzzle,
-- `Exchange` about two honest ends, the others about a server's end under any peer.
pub mod Weakness
pub mod Exchange
pub mod Stages
pub mod Bystanders
pub mod Replies
pub mod Trust
