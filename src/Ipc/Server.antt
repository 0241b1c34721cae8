-- ===== src/Ipc/Server.antt =====
-- `IPCServer.start`, `stop` and `_ensure_clean_socket_path` of boostlock/ipc.py, for any answers of
-- the operating system.
pub mod Kept
use boostlock.Prelude.{
  Bool, true, false, ◌≡◌, ◌≢◌, refl, inl, inr, List, [], ◌∷◌, Result, ok, err, arith, Bool-cases,
  if◌then◌else◌,
}

-- what is at the socket's path: nothing, a socket that nobody listens on, one that another process
-- listens on, or the server's own
pub data SocketFile : Type 0 where
  absent stale foreign own : SocketFile

pub record IpcServer : Type 0 where
  pub is_running : Bool
  pub has_socket : Bool
  pub stop_event : Bool
  pub socket_path : SocketFile

-- Whether each call of one `start` succeeds. `probe` is the connection to the socket that is there.
pub record StartAnswers : Type 0 where
  pub mkdir : Bool
  pub probe_socket : Bool
  pub probe : Bool
  pub unlink : Bool
  pub open_socket : Bool
  pub bind : Bool
  pub listen : Bool

-- `OSError` where `mkdir` or a call of `socket` raises, and the messages of `IPCError`
pub data StartError : Type 0 where
  os_error in_use stale_kept bind_failed : StartError

abbrev exists : SocketFile → Bool
exists absent = false
exists stale = true
exists foreign = true
exists own = true

abbrev path_cleared : Bool → SocketFile → Result StartError SocketFile
path_cleared unlinked file = if unlinked then ok absent else err stale_kept

abbrev probed : StartAnswers → SocketFile → Result StartError SocketFile
probed a file =
    let answered = if a.probe then err in_use else path_cleared a.unlink file in
    if a.probe_socket then answered else err os_error

-- the file that is there afterwards
unfoldable pub ensure_clean_socket_path : StartAnswers → SocketFile → Result StartError SocketFile
ensure_clean_socket_path a file =
    let cleaned = if exists file then probed a file else ok file in
    if a.mkdir then cleaned else err os_error

abbrev pub Started : Type 0
Started = Result StartError (Unit {0}) × IpcServer

-- `bind` makes the file, which a failed `listen` leaves behind
abbrev bound : StartAnswers → IpcServer → Started
bound a s =
    let listening : IpcServer = record s {
      is_running = true;
      has_socket = true;
      stop_event = false;
      socket_path = own;
    } in
    let failed : Started =
      (err bind_failed, record s { has_socket = false; socket_path = stale }) in
    let refused : Started = (err bind_failed, record s { has_socket = false }) in
    if a.bind then (if a.listen then (ok tt, listening) else failed) else refused

abbrev socket_opened : StartAnswers → IpcServer → Started
socket_opened a s =
    if a.open_socket then bound a (record s { has_socket = true }) else (err os_error, s)

abbrev after_cleaning : StartAnswers → Result StartError SocketFile → IpcServer → Started
after_cleaning a (err e) s = (err e, s)
after_cleaning a (ok file) s = socket_opened a (record s { socket_path = file })

unfoldable pub start : StartAnswers → IpcServer → Started
unfolding ensure_clean_socket_path
start a s =
    let fresh = after_cleaning a (ensure_clean_socket_path a s.socket_path) s in
    if s.is_running then (ok tt, s) else fresh

-- what stands at the path where a removal fails
abbrev left_behind : SocketFile → SocketFile
left_behind absent = absent
left_behind stale = stale
left_behind foreign = foreign
left_behind own = stale

unfoldable pub stop : Bool → IpcServer → IpcServer
stop unlinked s =
    let halted = record s {
      is_running = false;
      has_socket = false;
      stop_event = true;
      socket_path = if unlinked then absent else left_behind s.socket_path;
    } in
    if s.is_running then halted else s

pub data ServerCall : Type 0 where
  start_call : StartAnswers → ServerCall
  stop_call : Bool → ServerCall

abbrev server_after : ServerCall → IpcServer → IpcServer
server_after (start_call a) s = (start a s).1
server_after (stop_call unlinked) s = stop unlinked s

-- the calls in order, whatever each of them returns or raises
unfoldable pub run_calls : List ServerCall → IpcServer → IpcServer
unfolding start stop
run_calls [] s = s
run_calls (c ∷ rest) s = run_calls rest (server_after c s)
