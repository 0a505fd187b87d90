-- ===== src/Ohci.antt =====
-- include/uf/ohci and include/uf/protocol/identity.hpp: the packets of the bus, the self-IDs of its
-- nodes and the configuration ROM of one.
pub mod Async
pub mod SelfId
pub mod ConfigRom
pub mod Tests
