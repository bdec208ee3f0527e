-- ===== src/Protocol/Session/Tests.antt =====
-- The handshake theorems at concrete inputs.
use atemproxy.Prelude.{◌≡◌, refl}
use atemproxy.Protocol.Session.{server_session_id}

server_session_id_run : server_session_id 0x8001 ≡ 0x8001
unfolding server_session_id
server_session_id_run = refl
