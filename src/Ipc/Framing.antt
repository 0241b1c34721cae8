-- ===== src/Ipc/Framing.antt =====
-- The framing of boostlock/ipc.py: a message ends at its first newline, whatever the chunks that the
-- socket cuts it into.
use boostlock.Prelude.{
  ℕ, Bool, false, ◌≡◌, ◌≢◌, refl, Option, none, some, List, [], ◌∷◌, ◌++◌, Result, ok, All, ◌==◌,
  Bool-cases, Option-cases, inl, inr, arith,
}
use mathlib.Core.List.{append-nil, append_assoc}
use boostlock.Prelude.Float.{Float}
use boostlock.Protocol.{Command}
use boostlock.Protocol.Messages.{
  number, Exception, Python, Request, Response, request_to_dict, response_to_dict,
}
use boostlock.Protocol.Messages.RoundTrip.{IsReadable}
use boostlock.Protocol.Codec.{
  Codec, Carries, has_newline, encode, encode_request, encode_response, decode_response,
  decode_request-line, decode_response-line,
}
use boostlock.Ipc.{
  Receipt, received, split_line, answered, connected, sent, response_to, answer, client_loop,
  handle_client, receive_loop, send_request, client_result,
}

abbrev pub concat : List (List ℕ) → List ℕ
concat [] = []
concat (c ∷ cs) = c ++ concat cs

abbrev pub receipts : List (List ℕ) → List Receipt
receipts [] = []
receipts (c ∷ cs) = received c ∷ receipts cs

-- the rounds of a server that is not stopped
abbrev pub rounds : List (List ℕ) → List (Bool × Receipt)
rounds [] = []
rounds (c ∷ cs) = (false, received c) ∷ rounds cs

abbrev pub IsChunk : List ℕ → Type 0
IsChunk c = c ≢ []

split_line-line :
    (line rest : List ℕ)
    → has_newline line ≡ false
    → split_line (line ++ 10 ∷ rest) ≡ some (line, rest)
unfolding split_line has_newline
split_line-line [] rest h = refl
split_line-line (b ∷ line) rest h = elim (Bool-cases (b == 10)) [
  | inl newline ↦ absurd (ground (arith, newline))
  | inr other ↦
      let later : has_newline line ≡ false = ground (arith, other) in
      rw (split_line, other, split_line-line line rest later) refl
]

-- more bytes after a newline do not move it
split_line-append :
    (xs ys line rest : List ℕ)
    → split_line xs ≡ some (line, rest)
    → split_line (xs ++ ys) ≡ some (line, rest ++ ys)
unfolding split_line
split_line-append [] ys line rest h = cc
split_line-append (b ∷ bs) ys line rest h = elim (Bool-cases (b == 10)) [
  | inl newline ↦
      let found : ◌≡◌ {A = Option (List ℕ × List ℕ)} (some ([], bs)) (some (line, rest)) =
        rw (split_line, newline) at h in
      let e : (line ≡ []) × (rest ≡ bs) = (cc, cc) in rw (split_line, newline, e.0, e.1) refl
  | inr other ↦ elim (Option-cases (split_line bs)) [
    | inl without ↦
        let lost : ◌≡◌ {A = Option (List ℕ × List ℕ)} none (some (line, rest)) =
          rw (split_line, other, without) at h in
        cc
    | inr ((l, r), later) ↦
        let found : ◌≡◌ {A = Option (List ℕ × List ℕ)} (some (b ∷ l, r)) (some (line, rest)) =
          rw (split_line, other, later) at h in
        let e : (line ≡ b ∷ l) × (rest ≡ r) = (cc, cc) in
        rw (split_line, other, split_line-append bs ys l r later, e.0, e.1) refl
  ]
]

module _ (F : Float) (py : Python F) (codec : Codec F) where
  module _ (handler : Request F → Result Exception (Response F)) where
    client_loop-rounds :
        (chunks : List (List ℕ)) (buffer line rest : List ℕ)
        → All IsChunk chunks
        → split_line buffer ≡ none
        → split_line (buffer ++ concat chunks) ≡ some (line, rest)
        → client_loop F py codec handler buffer (rounds chunks)
          ≡ answered (encode_response F py codec (answer F py codec handler line))
    unfolding client_loop
    client_loop-rounds [] buffer line rest all without h =
        let lost : split_line buffer ≡ some (line, rest) = rw (append-nil buffer) at h in cc
    client_loop-rounds ([] ∷ chunks) buffer line rest all without h = absurd (all.0 refl)
    client_loop-rounds ((b ∷ bs) ∷ chunks) buffer line rest all without h =
        let grown = buffer ++ b ∷ bs in
        let h' : split_line (grown ++ concat chunks) ≡ some (line, rest) =
          rw (append_assoc buffer (b ∷ bs) (concat chunks)) h in
        elim (Option-cases (split_line grown)) [
          | inl still ↦
              rw (client_loop, still) (client_loop-rounds chunks grown line rest all.1 still h')
          | inr ((l, r), found) ↦
              let same = split_line-append grown (concat chunks) l r found in
              let e : l ≡ line = cc (same, h') in rw (client_loop, found, e) refl
        ]

  receive_loop-receipts :
      (chunks : List (List ℕ)) (buffer line rest : List ℕ)
      → All IsChunk chunks
      → split_line buffer ≡ none
      → split_line (buffer ++ concat chunks) ≡ some (line, rest)
      → receive_loop F py codec buffer (receipts chunks)
        ≡ some (client_result F py codec (decode_response F py codec line))
  unfolding receive_loop
  receive_loop-receipts [] buffer line rest all without h =
      let lost : split_line buffer ≡ some (line, rest) = rw (append-nil buffer) at h in cc
  receive_loop-receipts ([] ∷ chunks) buffer line rest all without h = absurd (all.0 refl)
  receive_loop-receipts ((b ∷ bs) ∷ chunks) buffer line rest all without h =
      let grown = buffer ++ b ∷ bs in
      let h' : split_line (grown ++ concat chunks) ≡ some (line, rest) =
        rw (append_assoc buffer (b ∷ bs) (concat chunks)) h in
      elim (Option-cases (split_line grown)) [
        | inl still ↦
            rw (receive_loop, still) (receive_loop-receipts chunks grown line rest all.1 still h')
        | inr ((l, r), found) ↦
            let same = split_line-append grown (concat chunks) l r found in
            let e : l ≡ line = cc (same, h') in rw (receive_loop, found, e) refl
      ]

  -- Bytes that come in chunks of any sizes are answered by the response to their first line. What
  -- follows the first newline is not read.
  pub handle_client-rounds :
      (handler : Request F → Result Exception (Response F)) (chunks : List (List ℕ))
      (line rest : List ℕ)
      → All IsChunk chunks
      → concat chunks ≡ line ++ 10 ∷ rest
      → has_newline line ≡ false
      → handle_client F py codec handler (rounds chunks)
        ≡ answered (encode_response F py codec (answer F py codec handler line))
  unfolding handle_client split_line
  handle_client-rounds handler chunks line rest all whole plain =
      client_loop-rounds handler chunks [] line rest all refl
        (rw whole (split_line-line line rest plain))

  send_request-receipts :
      (chunks : List (List ℕ)) (line rest : List ℕ)
      → All IsChunk chunks
      → concat chunks ≡ line ++ 10 ∷ rest
      → has_newline line ≡ false
      → send_request F py codec connected sent (receipts chunks)
        ≡ some (client_result F py codec (decode_response F py codec line))
  unfolding send_request split_line
  send_request-receipts chunks line rest all whole plain =
      receive_loop-receipts chunks [] line rest all refl
        (rw whole (split_line-line line rest plain))

  -- A request of a known command reaches the handler as it was sent, and the response to it, or to what
  -- the handler raises, reaches the client as it was made, however the socket cuts the bytes of the one
  -- and of the other.
  pub send_request-handle_client :
      (handler : Request F → Result Exception (Response F)) (q : Request F) (c : Command)
      (up down : List (List ℕ))
      → IsReadable F py q c
      → q.request_id ≢ ""
      → Carries F py codec (request_to_dict F py q)
      → Carries F py codec (response_to_dict F py (response_to F py codec q (handler q)))
      → py.float_of (number (response_to F py codec q (handler q)).timestamp)
        ≡ ok (response_to F py codec q (handler q)).timestamp
      → All IsChunk up
      → concat up ≡ encode_request F py codec q
      → All IsChunk down
      → concat down ≡ encode_response F py codec (response_to F py codec q (handler q))
      → (handle_client F py codec handler (rounds up) ≡ answered (concat down))
        × (send_request F py codec connected sent (receipts down)
            ≡ some (ok (response_to F py codec q (handler q))))
  unfolding encode_request encode_response encode answer
  send_request-handle_client handler q c up down readable named carried carried' time all whole all'
        whole' =
      let r = response_to F py codec q (handler q) in
      let there = codec.utf8_encode (codec.dumps (request_to_dict F py q)) in
      let back = codec.utf8_encode (codec.dumps (response_to_dict F py r)) in
      let answers = handle_client-rounds handler up there [] all whole carried.one_line in
      let reads = send_request-receipts down back [] all' whole' carried'.one_line in
      (
        rw (decode_request-line F py codec q c readable named carried, ← whole') at answers,
        rw (decode_response-line F py codec r time carried') at reads,
      )
