-- ===== src/Protocol.antt =====
-- boostlock/protocol.py: the commands and their names. `clean` is `str.strip` followed by `str.lower`.
pub mod Messages
pub mod Codec
use boostlock.Prelude.{
  String, ◌≡◌, ◌↔◌, refl, List, [], ◌∷◌, Result, ok, err, arith, str_eq, eq_iff, if◌then◌else◌,
}

pub data Command : Type 0 where
  ping status start stop pause_command resume_command reconfigure lock_command : Command
  unlock_command metrics config : Command

pub data ProtocolError : Type 0 where
  unknown_command : String → ProtocolError

unfoldable pub command_value : Command → String
command_value ping = "ping"
command_value status = "status"
command_value start = "start"
command_value stop = "stop"
command_value pause_command = "pause"
command_value resume_command = "resume"
command_value reconfigure = "reconfigure"
command_value lock_command = "lock"
command_value unlock_command = "unlock"
command_value metrics = "metrics"
command_value config = "config"

-- the members in the order of the enumeration
unfoldable commands : List Command
commands =
    ping ∷ status ∷ start ∷ stop ∷ pause_command ∷ resume_command ∷ reconfigure ∷ lock_command
    ∷ unlock_command ∷ metrics ∷ config ∷ []

-- the loop over the members
unfoldable pub find_command : String → String → List Command → Result ProtocolError Command
find_command val cleaned [] = err (unknown_command val)
find_command val cleaned (c ∷ rest) =
    let later = find_command val cleaned rest in
    if str_eq (command_value c) cleaned then ok c else later

unfoldable pub from_str : (String → String) → String → Result ProtocolError Command
unfolding find_command commands
from_str clean val = find_command val (clean val) commands

found_value :
    (val cleaned : String) (cs : List Command) (c : Command)
    → find_command val cleaned cs ≡ ok c
    → cleaned ≡ command_value c
unfolding find_command
found_value val cleaned [] c h = cc
found_value val cleaned (d ∷ cs) c h =
    ground (arith, eq_iff (command_value d) cleaned, found_value val cleaned cs c)

find_value : (val : String) (c : Command) → find_command val (command_value c) commands ≡ ok c
unfolding find_command commands command_value
find_value val ping = refl
find_value val status = refl
find_value val start = refl
find_value val stop = refl
find_value val pause_command = refl
find_value val resume_command = refl
find_value val reconfigure = refl
find_value val lock_command = refl
find_value val unlock_command = refl
find_value val metrics = refl
find_value val config = refl

-- A string is read as a command exactly where it is the command's name, up to case and the blanks
-- around it.
pub from_str-iff-command_value :
    (clean : String → String) (val : String) (c : Command)
    → (from_str clean val ≡ ok c) ↔ (clean val ≡ command_value c)
unfolding from_str
from_str-iff-command_value clean val c =
    (found_value val (clean val) commands c, λ named. rw named (find_value val c))
