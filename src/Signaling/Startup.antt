-- ===== src/Signaling/Startup.antt =====
-- backend/internal/signaling/server.go, handler.go: configuration, the loops beside the handlers, and
-- the end of a server; backend/cmd/signaling/main.go: the command. Times are nanoseconds.
mod Tests
pub mod Idle
use Prim.Native.String.{◌++◌ as append}
use altair.Prelude.{
  ℕ, ◌*◌, String, Bool, true, false, ◌||◌, List, [], ◌∷◌, Option, none, some, ltb, if◌then◌else◌,
}
use altair.Retry.{second}
use altair.Signaling.Peer.{Conn, Heap}
use altair.Signaling.Handler.{State}
use altair.Signaling.Server.{new_state, cleanup, shutdown}
use altair.Signaling.Socket.{Upgrader}

-- A server has no logger, or one of these.
pub data Logger : Type 0 where
  standard verbose discarding : Logger

pub record Config : Type 0 where
  pub addr : String
  pub read_timeout : ℕ
  pub write_timeout : ℕ
  pub cleanup_interval : ℕ
  pub stale_timeout : ℕ
  pub logger : Option Logger

unfoldable pub default_config : Config
default_config = record {
  addr = ":8080";
  read_timeout = 15 * second;
  write_timeout = 15 * second;
  cleanup_interval = 60 * second;
  stale_timeout = 300 * second;
  logger = some standard;
}

pub record HandlerConfig : Type 0 where
  pub upgrader : Upgrader
  pub read_timeout : ℕ
  pub write_timeout : ℕ
  pub ping_interval : ℕ
  pub pong_wait : ℕ
  pub logger : Option Logger

unfoldable pub new_handler : HandlerConfig
new_handler = record {
  upgrader = none;
  read_timeout = 60 * second;
  write_timeout = 10 * second;
  ping_interval = 30 * second;
  pong_wait = 60 * second;
  logger = some standard;
}

unfoldable pub set_upgrader : HandlerConfig → Upgrader → HandlerConfig
set_upgrader h u = record h { upgrader = u }

-- `done` is the sync.Once of `Shutdown` with the closed channel.
pub record Server : Type 0 where
  pub state : State
  pub handler : HandlerConfig
  pub config : Config
  pub done : Bool

unfoldable pub new_server : Config → Heap → Server
new_server cfg h = record {
  state = new_state h;
  handler = elim cfg.logger [
    | none ↦ new_handler
    | some l ↦ record (new_handler) { logger = some l }
  ];
  config = cfg;
  done = false;
}

-- The times of the ticks before `done` is closed; the state, and the lines that are logged.
unfoldable pub cleanup_loop : State → ℕ → List ℕ → State × List (ℕ × ℕ)
cleanup_loop s stale_timeout [] = (s, [])
cleanup_loop s stale_timeout (now ∷ ticks) =
    let (s1, stale, empty) = cleanup s stale_timeout now in
    let (s', lines) = cleanup_loop s1 stale_timeout ticks in
    (s', if ltb 0 stale || ltb 0 empty then (stale, empty) ∷ lines else lines)

-- What the select takes: a signal, or the closed channel.
unfoldable pub handle_shutdown_signals : Server → Bool → Server
handle_shutdown_signals server signalled =
    if signalled
    then (let (s, done) = shutdown server.state server.done in
        record server { state = s; done = done })
    else server

-- How ListenAndServe ends.
pub data Listened : Type 0 where
  server_closed : Listened
  listen_failed : String → Listened

-- The error of `Start`.
unfoldable pub start : Listened → Option String
start server_closed = none
start (listen_failed text) = some text

unfoldable pub listen_addr : Server → String
listen_addr server = append "http://localhost" server.config.addr

pub record Flags : Type 0 where
  pub addr : String
  pub verbose : Bool
  pub version : Bool

unfoldable pub main_config : Flags → Config
main_config flags = record {
  addr = flags.addr;
  read_timeout = 15 * second;
  write_timeout = 15 * second;
  cleanup_interval = 60 * second;
  stale_timeout = 300 * second;
  logger = some (if flags.verbose then verbose else discarding);
}

-- The server of the command; `none` if it only shows its version.
unfoldable pub main_server : Flags → Heap → Option Server
main_server flags h = if flags.version then none else some (new_server (main_config flags) h)

-- The exit code.
unfoldable pub main : Flags → Listened → ℕ
main flags listened =
    if flags.version then 0 else elim (start listened) [ none ↦ 0 | some text ↦ 1 ]

-- The lines of the banner that depend on the flags.
unfoldable pub print_banner : String → Bool → List String
print_banner addr is_verbose =
    append " WebSocket:  ws://localhost" (append addr "/ws")
    ∷ append " Health:     http://localhost" (append addr "/health")
    ∷ append " Stats:      http://localhost" (append addr "/api/stats")
    ∷ append " Rooms:      http://localhost" (append addr "/api/rooms")
    ∷ (if is_verbose then " Verbose logging: enabled" ∷ [] else [])
