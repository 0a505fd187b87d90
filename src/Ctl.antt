-- ===== src/Ctl.antt =====
-- The daemon's control plane: platform/shared/uf_ctl_proto.hpp and uf_ctl_client.hpp,
-- platform/daemon/uf_ctl_server.hpp, and the command handling of platform/daemon/uf-daemon.cpp.
pub mod Proto
pub mod Client
pub mod Server
pub mod Queue
pub mod Apply
pub mod Tests
