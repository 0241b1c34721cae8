-- ===== src/Examples/Exchanges.antt =====
-- A PING over the socket of boostlock/ipc.py, cut into single bytes, with a codec that writes each of
-- the two messages as one letter.
use boostlock.Prelude.{
  Bool, ℕ, String, true, false, ◌≡◌, ◌≢◌, refl, some, List, [], ◌∷◌, Result, ok, err, str_eq,
  if◌then◌else◌, ◌==◌,
}
use boostlock.Prelude.Fixed.{fixed}
use boostlock.Prelude.Decimal.{str_ℤ}
use boostlock.Protocol.{ping, command_value}
use boostlock.Protocol.Messages.{
  Json, null, boolean, integer, number, text, array, object, no_member, member, Exception, raised,
  Python, known, Request, Response, request_to_dict, response_to_dict,
}
use boostlock.Protocol.Messages.RoundTrip.{IsReadable}
use boostlock.Protocol.Codec.{Codec, Carries, has_newline, encode, encode_request, encode_response}
use boostlock.Ipc.{answered, connected, sent, handle_client, send_request}
use boostlock.Ipc.Framing.{concat, receipts, rounds, send_request-handle_client}
use boostlock.Ipc.Server.{IpcServer, StartAnswers, ServerCall, start_call, stop_call, foreign}

abbrev py : Python fixed
py = record {
  clean = λ s. s;
  str_of = λ v. elim v [
    | text s ↦ s
    | null ↦ "None"
    | boolean b ↦ "bool"
    | integer n ↦ str_ℤ n
    | number n ↦ "0.0"
    | array vs ↦ "[]"
    | object m ↦ "{}"
  ];
  float_of = λ v. elim v [
    | integer n ↦ ok (fixed.of_ℤ n)
    | number n ↦ ok n
    | text s ↦ err (raised "ValueError" s)
    | null ↦ err (raised "TypeError" "None")
    | boolean b ↦ ok 10000
    | array vs ↦ err (raised "TypeError" "list")
    | object m ↦ err (raised "TypeError" "dict")
  ];
  uuid4 = "new";
  now = 50000;
}

abbrev request : Request fixed
request = record { command = known ping; args = no_member; request_id = "7"; timestamp = 10000 }

abbrev pong : Response fixed
pong = record {
  success = true;
  data_field = text "pong";
  error = null;
  error_type = null;
  request_id = text "7";
  timestamp = 50000;
}

abbrev request_value : Json fixed
request_value = object (
    member "command" (text "ping") (
      member "args" (object no_member)
        (member "request_id" (text "7") (member "timestamp" (number 10000) no_member))))

abbrev response_value : Json fixed
response_value = object (
    member "success" (boolean true) (
      member "data" (text "pong") (
        member "error" null (
          member "error_type" null
            (member "request_id" (text "7") (member "timestamp" (number 50000) no_member))))))

abbrev letter : Json fixed → String
letter (object (member key v rest)) = if str_eq key "command" then "q" else "r"
letter _ = "r"

abbrev codec : Codec fixed
codec = record {
  dumps = letter;
  loads = λ s. if str_eq s "q" then ok request_value else ok response_value;
  utf8_encode = λ s. if str_eq s "q" then 113 ∷ [] else 114 ∷ [];
  utf8_decode = λ bytes. elim bytes [ [] ↦ ok "" | b ∷ bs ↦ if b == 113 then ok "q" else ok "r" ];
  strip = λ s. s;
}

abbrev handler : Request fixed → Result Exception (Response fixed)
handler q = ok pong

readable : IsReadable fixed py request ping
unfolding command_value
readable = record {
  is_known = refl;
  named = refl;
  command_as_is = refl;
  id_as_is = refl;
  time_as_is = refl;
}

request_carried : Carries fixed py codec (request_to_dict fixed py request)
unfolding request_to_dict has_newline command_value
request_carried = record {
  one_line = refl;
  same_text = refl;
  stripped = refl;
  not_empty = refl;
  same_value = refl;
}

response_carried : Carries fixed py codec (response_to_dict fixed py pong)
unfolding response_to_dict has_newline
response_carried = record {
  one_line = refl;
  same_text = refl;
  stripped = refl;
  not_empty = refl;
  same_value = refl;
}

abbrev up : List (List ℕ)
up = (113 ∷ []) ∷ (10 ∷ []) ∷ []

abbrev down : List (List ℕ)
down = (114 ∷ []) ∷ (10 ∷ []) ∷ []

up_whole : concat up ≡ encode_request fixed py codec request
unfolding encode_request encode request_to_dict
up_whole = refl

down_whole : concat down ≡ encode_response fixed py codec pong
unfolding encode_response encode response_to_dict
down_whole = refl

not_nil : (b : ℕ) (bs : List ℕ) → (b ∷ bs) ≢ []
not_nil b bs e = cc

named : request.request_id ≢ ""
named e = cc

send_request-handle_client_example :
    (handle_client fixed py codec handler (rounds up) ≡ answered (concat down))
    × (send_request fixed py codec connected sent (receipts down) ≡ some (ok pong))
send_request-handle_client_example =
    send_request-handle_client fixed py codec handler request ping up down readable named
      request_carried response_carried refl (not_nil 113 [], (not_nil 10 [], tt)) up_whole
      (not_nil 114 [], (not_nil 10 [], tt)) down_whole

-- the first start clears a socket that nobody listens on and then cannot listen
abbrev answers : Bool → StartAnswers
answers listens = record {
  mkdir = true;
  probe_socket = true;
  probe = false;
  unlink = true;
  open_socket = true;
  bind = true;
  listen = listens;
}

abbrev server : IpcServer
server = record {
  is_running = false;
  has_socket = false;
  stop_event = false;
  socket_path = foreign;
}

abbrev calls : List ServerCall
calls = start_call (answers false) ∷ start_call (answers true) ∷ stop_call false ∷ []
