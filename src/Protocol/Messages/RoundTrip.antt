-- ===== src/Protocol/Messages/RoundTrip.antt =====
-- The dictionary forms of boostlock/protocol.py are read back as the messages that they came from.
use boostlock.Prelude.{false, ◌≡◌, ◌≢◌, refl, ok, str_eq, eq_iff, Bool-cases, inl, inr}
use boostlock.Prelude.Float.{Float}
use boostlock.Protocol.{Command, command_value, from_str, from_str-iff-command_value}
use boostlock.Protocol.Messages.{
  text, number, Python, known, Request, Response, truthy, lookup, request_to_dict,
  request_from_dict, response_to_dict, response_from_dict,
}

module _ (F : Float) (py : Python F) where
  open F use {Num}

  -- What the calls do with the text of a command and of an identifier, and with a number: `str` of a
  -- string and `float` of a float give them back, and a command's name has no blank and no capital.
  pub record IsReadable (q : Request F) (c : Command) : Type 0 where
    pub is_known : q.command ≡ known c
    pub named : py.clean (command_value c) ≡ command_value c
    pub command_as_is : py.str_of (text (command_value c)) ≡ command_value c
    pub id_as_is : py.str_of (text q.request_id) ≡ q.request_id
    pub time_as_is : py.float_of (number q.timestamp) ≡ ok q.timestamp

  -- A request of a known command with an identifier is read back from its dictionary as it was.
  pub request_from_dict-request_to_dict :
      (q : Request F) (c : Command)
      → IsReadable q c
      → q.request_id ≢ ""
      → request_from_dict F py (request_to_dict F py q) ≡ ok q
  unfolding request_from_dict request_to_dict lookup truthy
  request_from_dict-request_to_dict q c r named =
      let parsed : from_str py.clean (command_value c) ≡ ok c =
        (from_str-iff-command_value py.clean (command_value c) c).1 r.named in
      let nonempty : str_eq q.request_id "" ≡ false = elim (Bool-cases (str_eq q.request_id "")) [
        | inl empty ↦ absurd (named ((eq_iff q.request_id "").0 empty))
        | inr filled ↦ filled
      ] in
      rw (r.is_known, r.command_as_is, parsed, nonempty, r.id_as_is, r.time_as_is)
        (rw (← r.is_known) refl)

  -- A response is read back from its dictionary as it was.
  pub response_from_dict-response_to_dict :
      (r : Response F)
      → py.float_of (number r.timestamp) ≡ ok r.timestamp
      → response_from_dict F py (response_to_dict F py r) ≡ ok r
  unfolding response_from_dict response_to_dict lookup truthy
  response_from_dict-response_to_dict r time = rw time refl
