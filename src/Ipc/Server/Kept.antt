-- ===== src/Ipc/Server/Kept.antt =====
-- What any starts and stops of the server keep.
use boostlock.Prelude.{true, false, ◌≡◌, ◌≢◌, ok, err}
use boostlock.Ipc.Server.{own, IpcServer, Started}

-- A running server has its socket, listens at its path and has not been told to stop. One that does
-- not run has no socket, and what is at its path is not its own.
pub record IsServer (s : IpcServer) : Type 0 where
  pub listens :
      s.is_running ≡ true → (s.has_socket ≡ true) × (s.stop_event ≡ false) × (s.socket_path ≡ own)
  pub idle : s.is_running ≡ false → (s.has_socket ≡ false) × (s.socket_path ≢ own)

-- a start that returns leaves the server running, and one that raises leaves it idle
abbrev pub StartOutcome : Started → Type 0
StartOutcome (ok _, s) = (s.is_running ≡ true) × IsServer s
StartOutcome (err _, s) = (s.is_running ≡ false) × IsServer s
