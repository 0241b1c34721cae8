-- ===== src/Protocol/Codec.antt =====
-- `encode_request`, `decode_request`, `encode_response` and `decode_response` of
-- boostlock/protocol.py: a message is the bytes of one line of JSON.
use Prim.Native.String.{◌++◌ as ◌++ₛ◌}
use boostlock.Prelude.{
  ℕ, String, Bool, true, false, ◌≡◌, ◌≢◌, refl, List, [], ◌∷◌, ◌++◌, Result, ok, err, ◌>>=◌, str_eq,
  ◌==◌, if◌then◌else◌,
}
use boostlock.Prelude.Float.{Float}
use boostlock.Protocol.{Command}
use boostlock.Protocol.Messages.{
  Json, number, Exception, invalid_message, Python, Request, Response, request_to_dict,
  request_from_dict, response_to_dict, response_from_dict,
}
use boostlock.Protocol.Messages.RoundTrip.{
  IsReadable, request_from_dict-request_to_dict, response_from_dict-response_to_dict,
}

-- `json.dumps`, `json.loads` with the message of its error, the UTF-8 codec and `str.strip`
pub record Codec (F : Float) : Type 0 where
  pub dumps : Json F → String
  pub loads : String → Result String (Json F)
  pub utf8_encode : String → List ℕ
  pub utf8_decode : List ℕ → Result Exception String
  pub strip : String → String

unfoldable pub has_newline : List ℕ → Bool
has_newline [] = false
has_newline (b ∷ bs) = let later = has_newline bs in if b == 10 then true else later

module _ (F : Float) (py : Python F) (codec : Codec F) where
  -- the text of a value and a newline
  unfoldable pub encode : Json F → List ℕ
  encode j = codec.utf8_encode (codec.dumps j) ++ 10 ∷ []

  unfoldable pub encode_request : Request F → List ℕ
  unfolding encode
  encode_request q = encode (request_to_dict F py q)

  unfoldable pub encode_response : Response F → List ℕ
  unfolding encode
  encode_response r = encode (response_to_dict F py r)

  abbrev json_error : String → Result String (Json F) → Result Exception (Json F)
  json_error prefix (ok j) = ok j
  json_error prefix (err e) = err (invalid_message (prefix ++ₛ e))

  abbrev value_of : String → String → String → Result Exception (Json F)
  value_of empty invalid stripped =
      if str_eq stripped ""
      then err (invalid_message empty)
      else json_error invalid (codec.loads stripped)

  -- the text of the bytes as a value; `empty` and `invalid` are the messages of the two errors
  unfoldable pub decode : String → String → List ℕ → Result Exception (Json F)
  decode empty invalid raw = do s ← codec.utf8_decode raw; value_of empty invalid (codec.strip s)

  unfoldable pub decode_request : List ℕ → Result Exception (Request F)
  unfolding decode
  decode_request raw = do
    j ← decode "Empty request payload" "Invalid JSON in request: " raw
    request_from_dict F py j

  unfoldable pub decode_response : List ℕ → Result Exception (Response F)
  unfolding decode
  decode_response raw = do
    j ← decode "Empty response payload" "Invalid JSON in response: " raw
    response_from_dict F py j

  -- What the codecs do with one value: its text comes back from its bytes and its value from its text;
  -- the text is not empty, has no blank around it and, as the bytes of `json.dumps`, no newline.
  pub record Carries (j : Json F) : Type 0 where
    pub one_line : has_newline (codec.utf8_encode (codec.dumps j)) ≡ false
    pub same_text : codec.utf8_decode (codec.utf8_encode (codec.dumps j)) ≡ ok (codec.dumps j)
    pub stripped : codec.strip (codec.dumps j) ≡ codec.dumps j
    pub not_empty : str_eq (codec.dumps j) "" ≡ false
    pub same_value : codec.loads (codec.dumps j) ≡ ok j

  decode_lem :
      (empty invalid : String) (j : Json F)
      → Carries j
      → decode empty invalid (codec.utf8_encode (codec.dumps j)) ≡ ok j
  unfolding decode
  decode_lem empty invalid j c = rw (c.same_text, c.stripped, c.not_empty, c.same_value) refl

  -- the line of a request is decoded as the request
  pub decode_request-line :
      (q : Request F) (c : Command)
      → IsReadable F py q c
      → q.request_id ≢ ""
      → Carries (request_to_dict F py q)
      → decode_request (codec.utf8_encode (codec.dumps (request_to_dict F py q))) ≡ ok q
  unfolding decode_request
  decode_request-line q c r named carries =
      rw
        (decode_lem "Empty request payload" "Invalid JSON in request: " (request_to_dict F py q)
          carries)
        (request_from_dict-request_to_dict F py q c r named)

  pub decode_response-line :
      (r : Response F)
      → py.float_of (number r.timestamp) ≡ ok r.timestamp
      → Carries (response_to_dict F py r)
      → decode_response (codec.utf8_encode (codec.dumps (response_to_dict F py r))) ≡ ok r
  unfolding decode_response
  decode_response-line r time carries =
      rw
        (decode_lem "Empty response payload" "Invalid JSON in response: " (response_to_dict F py r)
          carries)
        (response_from_dict-response_to_dict F py r time)
