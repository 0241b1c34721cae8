-- ===== src/Protocol/Messages.antt =====
-- `Request` and `Response` of boostlock/protocol.py and their form as JSON values.
pub mod RoundTrip
use Prim.Native.String.{◌++◌ as ◌++ₛ◌}
use boostlock.Prelude.{
  zero, suc, String, Bool, true, false, not, ◌&&◌, Option, none, some, Result, ok, err, ◌>>=◌,
  str_eq, if◌then◌else◌,
}
use boostlock.Prelude.Int.{ℤ, pos, negsuc}
use boostlock.Prelude.Float.{Float}
use boostlock.Protocol.{Command, ProtocolError, unknown_command, command_value, from_str}

-- what `json.loads` gives; the keys of an object differ
mutual
  pub data Json (F : Float) : Type 0 where
    null : Json F
    boolean : Bool → Json F
    integer : ℤ → Json F
    number : F.Num → Json F
    text : String → Json F
    array : Items F → Json F
    object : Members F → Json F

  pub data Items (F : Float) : Type 0 where
    no_item : Items F
    item : Json F → Items F → Items F

  pub data Members (F : Float) : Type 0 where
    no_member : Members F
    member : String → Json F → Members F → Members F

-- exceptions: the two of the protocol, and any other by the name of its class and its message
pub data Exception : Type 0 where
  invalid_message unknown_command_error : String → Exception
  raised : String → String → Exception

-- `str.strip` then `str.lower`, `str`, `float`, `uuid.uuid4` and `time.time` at one call
pub record Python (F : Float) : Type 0 where
  pub clean : String → String
  pub str_of : Json F → String
  pub float_of : Json F → Result Exception F.Num
  pub uuid4 : String
  pub now : F.Num

-- A request that the constructor was given an unknown command for keeps its text.
pub data AnyCommand : Type 0 where
  known : Command → AnyCommand
  other : String → AnyCommand

pub record Request (F : Float) : Type 0 where
  pub command : AnyCommand
  pub args : Members F
  pub request_id : String
  pub timestamp : F.Num

-- `from_dict` takes over the fields but two as they are, with None for the missing ones.
pub record Response (F : Float) : Type 0 where
  pub success : Bool
  pub data_field : Json F
  pub error : Json F
  pub error_type : Json F
  pub request_id : Json F
  pub timestamp : F.Num

module _ (F : Float) (py : Python F) where
  open F use {Num, le, lit}

  -- data.get(key)
  unfoldable pub lookup : String → Members F → Option (Json F)
  lookup key no_member = none
  lookup key (member k v rest) =
      let later = lookup key rest in if str_eq k key then some v else later

  abbrev or_null : Option (Json F) → Json F
  or_null none = null
  or_null (some v) = v

  -- bool(v)
  unfoldable pub truthy : Json F → Bool
  truthy null = false
  truthy (boolean b) = b
  truthy (integer (pos zero)) = false
  truthy (integer (pos (suc n))) = true
  truthy (integer (negsuc n)) = true
  truthy (number n) = not (le n (lit 0) && le (lit 0) n)
  truthy (text s) = not (str_eq s "")
  truthy (array no_item) = false
  truthy (array (item v vs)) = true
  truthy (object no_member) = false
  truthy (object (member k v rest)) = true

  abbrev command_text : AnyCommand → String
  command_text (known c) = command_value c
  command_text (other s) = s

  -- `Request.to_dict`
  unfoldable pub request_to_dict : Request F → Json F
  request_to_dict q = object (
      member "command" (text (command_text q.command)) (
        member "args" (object q.args) (
          member "request_id" (text q.request_id)
            (member "timestamp" (number q.timestamp) no_member))))

  abbrev command_error : Result ProtocolError Command → Result Exception Command
  command_error (ok c) = ok c
  command_error (err (unknown_command s)) =
      err (unknown_command_error ("Unknown command: '" ++ₛ s ++ₛ "'"))

  abbrev required : Option (Json F) → String → Result Exception (Json F)
  required none message = err (invalid_message message)
  required (some v) message = ok v

  -- the 'args' field, {} where it is missing
  abbrev args_of : Option (Json F) → Result Exception (Members F)
  args_of none = ok no_member
  args_of (some (object m)) = ok m
  args_of (some _) = err (invalid_message "'args' field in Request must be a JSON object (dict)")

  -- str(data.get("request_id") or str(uuid.uuid4()))
  abbrev id_or_new : Option (Json F) → String
  id_or_new none = py.uuid4
  id_or_new (some v) = if truthy v then py.str_of v else py.uuid4

  -- float(data.get("timestamp", time.time()))
  abbrev time_or_now : Option (Json F) → Result Exception Num
  time_or_now none = ok py.now
  time_or_now (some v) = py.float_of v

  abbrev request_of : Members F → Result Exception (Request F)
  request_of m = do
    raw ← required (lookup "command" m) "Missing required 'command' field in Request"
    c ← command_error (from_str py.clean (py.str_of raw))
    args ← args_of (lookup "args" m)
    time ← time_or_now (lookup "timestamp" m)
    ok (record {
      command = known c;
      args = args;
      request_id = id_or_new (lookup "request_id" m);
      timestamp = time;
    })

  -- `Request.from_dict`
  unfoldable pub request_from_dict : Json F → Result Exception (Request F)
  unfolding lookup truthy
  request_from_dict (object m) = request_of m
  request_from_dict _ = err (invalid_message "Request payload must be a JSON object (dict)")

  abbrev text_or_null : Option String → Json F
  text_or_null none = null
  text_or_null (some s) = text s

  -- `Response.ok`, at the time of the call
  unfoldable pub succeed : Json F → Option String → Response F
  succeed data_field request_id = record {
    success = true;
    data_field = data_field;
    error = null;
    error_type = null;
    request_id = text_or_null request_id;
    timestamp = py.now;
  }

  -- `Response.fail`, at the time of the call
  unfoldable pub fail : String → String → Option String → Response F
  fail error error_type request_id = record {
    success = false;
    data_field = null;
    error = text error;
    error_type = text error_type;
    request_id = text_or_null request_id;
    timestamp = py.now;
  }

  -- `Response.to_dict`
  unfoldable pub response_to_dict : Response F → Json F
  response_to_dict r = object (
      member "success" (boolean r.success) (
        member "data" r.data_field (
          member "error" r.error (
            member "error_type" r.error_type (
              member "request_id" r.request_id
                (member "timestamp" (number r.timestamp) no_member))))))

  abbrev response_of : Members F → Result Exception (Response F)
  response_of m = do
    success ← required (lookup "success" m) "Missing required 'success' field in Response"
    time ← time_or_now (lookup "timestamp" m)
    ok (record {
      success = truthy success;
      data_field = or_null (lookup "data" m);
      error = or_null (lookup "error" m);
      error_type = or_null (lookup "error_type" m);
      request_id = or_null (lookup "request_id" m);
      timestamp = time;
    })

  -- `Response.from_dict`
  unfoldable pub response_from_dict : Json F → Result Exception (Response F)
  unfolding lookup truthy
  response_from_dict (object m) = response_of m
  response_from_dict _ = err (invalid_message "Response payload must be a JSON object (dict)")
