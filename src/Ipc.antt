-- ===== src/Ipc.antt =====
-- boostlock/ipc.py: one request and one response over a socket, as the server and the client read them.
--
-- What a socket's calls give is data: the chunks that `recv` returns, its timeouts and its errors.

pub mod Framing
pub mod Server
use boostlock.Prelude.{
  ℕ, String, Bool, true, false, Option, none, some, List, [], ◌∷◌, ◌++◌, Result, ok, err, ◌==◌,
  if◌then◌else◌,
}
use boostlock.Prelude.Float.{Float}
use boostlock.Protocol.Messages.{
  Exception, invalid_message, unknown_command_error, raised, Python, Request, Response, fail,
}
use boostlock.Protocol.Codec.{Codec, encode_response, decode_request, decode_response}

-- one call of `recv`; no byte means that the peer has closed
pub data Receipt : Type 0 where
  received : List ℕ → Receipt
  timed_out failed : Receipt

abbrev line_cons : ℕ → Option (List ℕ × List ℕ) → Option (List ℕ × List ℕ)
line_cons b none = none
line_cons b (some (line, rest)) = some (b ∷ line, rest)

-- `buffer.split(b"\n", 1)`, `none` where the buffer has no newline
unfoldable pub split_line : List ℕ → Option (List ℕ × List ℕ)
split_line [] = none
split_line (b ∷ bs) =
    let later = split_line bs in if b == 10 then some ([], bs) else line_cons b later

-- what `_handle_client` does with the connection: the bytes that it sends before it closes it, a close
-- without an answer, or a wait for more, with the buffer
pub data Served : Type 0 where
  answered : List ℕ → Served
  closed : Served
  waiting : List ℕ → Served

pub data IpcError : Type 0 where
  ipc_error connection_error timeout_error permission_error : IpcError

-- how `connect` ends
pub data Connection : Type 0 where
  connected file_not_found refused denied connect_timed_out connect_failed : Connection

-- how `sendall` ends
pub data Sending : Type 0 where
  sent send_timed_out send_failed : Sending

module _ (F : Float) (py : Python F) (codec : Codec F) where
  abbrev error_response : Exception → Option String → Response F
  error_response (invalid_message message) id = fail F py message "InvalidMessageError" id
  error_response (unknown_command_error message) id = fail F py message "UnknownCommandError" id
  error_response (raised class message) id = fail F py message class id

  -- the response to a decoded request, or to the exception that the handler raises
  abbrev pub response_to : Request F → Result Exception (Response F) → Response F
  response_to q (ok r) = r
  response_to q (err e) = error_response e (some q.request_id)

  abbrev handled :
      (Request F → Result Exception (Response F)) → Result Exception (Request F) → Response F
  handled handler (ok q) = response_to q (handler q)
  handled handler (err e) = error_response e none

  -- the response to a line
  unfoldable pub answer : (Request F → Result Exception (Response F)) → List ℕ → Response F
  answer handler line = handled handler (decode_request F py codec line)

  abbrev reply_or :
      (Request F → Result Exception (Response F)) → Option (List ℕ × List ℕ) → Served → Served
  reply_or handler none rest = rest
  reply_or handler (some (line, _)) rest =
      answered (encode_response F py codec (answer handler line))

  -- The loop of `_handle_client`: each round has the value of the stop event and a receipt.
  unfoldable pub client_loop :
      (Request F → Result Exception (Response F)) → List ℕ → List (Bool × Receipt) → Served
  unfolding answer split_line
  client_loop handler buffer [] = waiting buffer
  client_loop handler buffer ((true, _) ∷ rounds) = closed
  client_loop handler buffer ((false, timed_out) ∷ rounds) = closed
  client_loop handler buffer ((false, failed) ∷ rounds) = closed
  client_loop handler buffer ((false, received []) ∷ rounds) = closed
  client_loop handler buffer ((false, received (b ∷ bs)) ∷ rounds) =
      let grown = buffer ++ b ∷ bs in
      reply_or handler (split_line grown) (client_loop handler grown rounds)

  unfoldable pub handle_client :
      (Request F → Result Exception (Response F)) → List (Bool × Receipt) → Served
  unfolding client_loop
  handle_client handler rounds = client_loop handler [] rounds

  -- the clauses on what the decoding raises
  abbrev response_error : Exception → IpcError
  response_error (invalid_message _) = ipc_error
  response_error (unknown_command_error _) = ipc_error
  response_error (raised _ _) = connection_error

  abbrev pub client_result : Result Exception (Response F) → Result IpcError (Response F)
  client_result (ok r) = ok r
  client_result (err e) = err (response_error e)

  -- the end of the server's bytes
  abbrev at_close : List ℕ → Result IpcError (Response F)
  at_close [] = err connection_error
  at_close (b ∷ bs) = client_result (decode_response F py codec (b ∷ bs))

  abbrev decoded_or :
      Option (List ℕ × List ℕ)
      → Option (Result IpcError (Response F))
      → Option (Result IpcError (Response F))
  decoded_or none rest = rest
  decoded_or (some (line, _)) rest = some (client_result (decode_response F py codec line))

  -- The loop of `send_request`, `none` where it waits for more.
  unfoldable pub receive_loop : List ℕ → List Receipt → Option (Result IpcError (Response F))
  unfolding split_line
  receive_loop buffer [] = none
  receive_loop buffer (timed_out ∷ receipts) = some (err timeout_error)
  receive_loop buffer (failed ∷ receipts) = some (err connection_error)
  receive_loop buffer (received [] ∷ receipts) = some (at_close buffer)
  receive_loop buffer (received (b ∷ bs) ∷ receipts) =
      let grown = buffer ++ b ∷ bs in decoded_or (split_line grown) (receive_loop grown receipts)

  abbrev after_sending : Sending → List Receipt → Option (Result IpcError (Response F))
  after_sending sent receipts = receive_loop [] receipts
  after_sending send_timed_out receipts = some (err timeout_error)
  after_sending send_failed receipts = some (err connection_error)

  unfoldable pub send_request :
      Connection → Sending → List Receipt → Option (Result IpcError (Response F))
  unfolding receive_loop
  send_request connected sending receipts = after_sending sending receipts
  send_request file_not_found sending receipts = some (err connection_error)
  send_request refused sending receipts = some (err connection_error)
  send_request denied sending receipts = some (err permission_error)
  send_request connect_timed_out sending receipts = some (err timeout_error)
  send_request connect_failed sending receipts = some (err connection_error)
