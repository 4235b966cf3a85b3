-- ===== src/Connection/Writer.antt =====
-- connection_net_interface.hpp: the write side. `Account`
-- states how far the writing has come, `Progress` follows it through the handlers, and `Order`,
-- `Stuck` and `Handlers` draw the conclusions for every history.
pub mod Account
pub mod Progress
pub mod Completion
pub mod Order
pub mod Stuck
pub mod Handlers
