-- ===== src/Sockets.antt =====
-- backend/pkg/netutil/netutil.go: opening UDP sockets. What the resolver and the system answer are
-- arguments: the address that a text stands for, and the local address of the new socket.
mod Tests
use Prim.Native.String.{◌++◌ as append}
use altair.Prelude.{ℕ, String, Option, none, some}
use altair.Outcome.{Outcome, ok, err, ◌>>=◌}
use altair.Format.{decimal}
use altair.Net.{UdpAddr}

pub data SocketError : Type 0 where
  resolve_failed listen_failed : SocketError

abbrev or_error : SocketError → Option UdpAddr → Outcome SocketError UdpAddr
or_error e none = err e
or_error e (some addr) = ok addr

-- What the functions share: the socket is its local address.
unfoldable pub open_udp :
    (String → Option UdpAddr) → (UdpAddr → Option UdpAddr) → String → Outcome SocketError UdpAddr
open_udp resolve listen text =
    or_error resolve_failed (resolve text) >>= λ addr. or_error listen_failed (listen addr)

unfoldable pub find_available_port :
    (String → Option UdpAddr) → (UdpAddr → Option UdpAddr) → Outcome SocketError ℕ
find_available_port resolve listen = open_udp resolve listen ":0" >>= λ own. ok own.port

unfoldable pub create_udp_socket :
    (String → Option UdpAddr) → (UdpAddr → Option UdpAddr) → ℕ → Outcome SocketError UdpAddr
create_udp_socket resolve listen port = open_udp resolve listen (append ":" (decimal port))

unfoldable pub create_udp_socket_with_address :
    (String → Option UdpAddr)
    → (UdpAddr → Option UdpAddr)
    → String
    → ℕ
    → Outcome SocketError UdpAddr
create_udp_socket_with_address resolve listen address port =
    open_udp resolve listen (append address (append ":" (decimal port)))
