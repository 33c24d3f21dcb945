-- ===== src/Data.antt =====
-- pipe/data: the protocol of the links, the receive queue, the routing and the CORE commands.
pub mod Types
pub mod Protocol
pub mod Fragment
pub mod Route
pub mod Queue
pub mod Command
