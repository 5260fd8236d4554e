-- ===== src/Relay/Hub/Forward.antt =====
-- ReadPump of the hub, whatever it reads.
use kamune.Prelude.{
  ◌≡◌, refl, ap, ◌∙◌, arith, Bool, Bool-cases, Option-cases, Result-cases, false, inl, inr,
  if◌then◌else◌, ◌==◌, Option, none, some, List, [], ◌∷◌, ◌++◌, Bytes, Result, ok, err,
}
use mathlib.Core.List.{append_assoc}
use kamune.Prelude.Dict
use kamune.Relay.Session.{
  SessionManager, SessionError, Channel, token_key, recipient, close_peer_channel,
}
use kamune.Relay.Hub.{
  Frame, msg, ping, pong, other, Proto, Effect, write, close, handle_message, handle_ping,
  handle_frame, close_peer, read_pump,
}

-- The bytes that are written to a channel, in order.
abbrev pub written_to : Channel → List Effect → List Bytes
written_to ch [] = []
written_to ch (write to b ∷ es) = if to == ch then b ∷ written_to ch es else written_to ch es
written_to ch (close to ∷ es) = written_to ch es

written_to-append :
    (ch : Channel) (xs ys : List Effect)
    → written_to ch (xs ++ ys) ≡ written_to ch xs ++ written_to ch ys
written_to-append ch [] ys = refl
written_to-append ch (write to b ∷ xs) ys = elim (Bool-cases (to == ch)) [
  | inl h ↦ rw h (ap (◌∷◌ b) (written_to-append ch xs ys))
  | inr h ↦ rw h (written_to-append ch xs ys)
]
written_to-append ch (close to ∷ xs) ys = written_to-append ch xs ys

-- The peer of a channel, if the session manager names one, is this channel.
abbrev pub is_named : Result SessionError Channel → Channel → Bool
is_named (err e) ch = false
is_named (ok to) ch = to == ch

-- What a channel is due for a frame that the sender's pump reads, with the session table of that moment:
-- the message if the channel is the sender's peer, a pong if it is the sender itself and the frame is a
-- ping, and otherwise nothing.
abbrev pub due : Proto → Channel → Bytes → Channel → SessionManager → Option Frame → List Bytes
due proto sender token ch sm (some (msg b)) =
    if is_named (recipient sm token sender) ch then proto.marshal (msg b) ∷ [] else []
due proto sender token ch sm (some ping) = if sender == ch then proto.marshal pong ∷ [] else []
due proto sender token ch sm (some pong) = []
due proto sender token ch sm (some other) = []
due proto sender token ch sm none = []

abbrev pub all_due : Proto → Channel → Bytes → Channel → List (SessionManager × Bytes) → List Bytes
all_due proto sender token ch [] = []
all_due proto sender token ch ((sm, b) ∷ rest) =
    due proto sender token ch sm (proto.unmarshal b) ++ all_due proto sender token ch rest

abbrev pub named : Result SessionError Channel → Option Channel
named (err e) = none
named (ok to) = some to

abbrev pub closing : Result SessionError Channel → List Effect
closing (err e) = []
closing (ok to) = close to ∷ []

-- ClosePeerChannel closes the peer that Recipient names, if it names one.
close_peer_channel-recipient :
    (sm : SessionManager) (token : Bytes) (sender : Channel)
    → close_peer_channel sm token sender ≡ named (recipient sm token sender)
unfolding recipient close_peer_channel
close_peer_channel-recipient sm token sender =
    elim (Option-cases (Dict.lookup (token_key token) sm.sessions)) [
      | inl f ↦ rw (f, recipient, close_peer_channel) refl
      | inr (sess, f) ↦ rw (f, recipient, close_peer_channel) (ground arith)
    ]

module _ (proto : Proto) (writes : Channel → Bytes → Bool) where
  handle_message-due :
      (sm : SessionManager) (sender ch : Channel) (token b : Bytes)
      → written_to ch (handle_message proto writes sm sender token b)
        ≡ due proto sender token ch sm (some (msg b))
  unfolding handle_message
  handle_message-due sm sender ch token b = elim (Result-cases (recipient sm token sender)) [
    | inl (to, h) ↦
        rw (h, handle_message)
          (elim (Bool-cases (writes to (proto.marshal (msg b)))) [
            | inl w ↦ rw w refl
            | inr w ↦ rw w refl
          ])
    | inr (y, h) ↦ rw (h, handle_message) refl
  ]

  handle_frame-due :
      (f : Option Frame) (sm : SessionManager) (sender ch : Channel) (token : Bytes)
      → written_to ch (handle_frame proto writes f sm sender token) ≡ due proto sender token ch sm f
  unfolding handle_ping
  handle_frame-due none sm sender ch token = refl
  handle_frame-due (some (msg b)) sm sender ch token = handle_message-due sm sender ch token b
  handle_frame-due (some ping) sm sender ch token = refl
  handle_frame-due (some pong) sm sender ch token = refl
  handle_frame-due (some other) sm sender ch token = refl

  close_peer-written :
      (ch : Channel) (o : Option Channel) → written_to ch (close_peer proto writes o) ≡ []
  close_peer-written ch none = refl
  close_peer-written ch (some to) = refl

  read_pump-due :
      (sender ch : Channel) (token : Bytes) (inputs : List (SessionManager × Bytes))
      (last : SessionManager)
      → written_to ch (read_pump proto writes sender token inputs last)
        ≡ all_due proto sender token ch inputs
  unfolding read_pump
  read_pump-due sender ch token [] last =
      close_peer-written ch (close_peer_channel last token sender)
  read_pump-due sender ch token ((sm, b) ∷ rest) last =
      written_to-append ch (handle_frame proto writes (proto.unmarshal b) sm sender token)
        (read_pump proto writes sender token rest last)
      ∙ rw (
        handle_frame-due (proto.unmarshal b) sm sender ch token,
        read_pump-due sender ch token rest last,
      )

  close_peer-named :
      (r : Result SessionError Channel) → close_peer proto writes (named r) ≡ closing r
  close_peer-named (err e) = refl
  close_peer-named (ok to) = refl

  read_pump_closes :
      (sender : Channel) (token : Bytes) (inputs : List (SessionManager × Bytes))
      (last : SessionManager)
      → (front : List Effect) × (read_pump proto writes sender token inputs last
          ≡ front ++ closing (recipient last token sender))
  unfolding read_pump
  read_pump_closes sender token [] last = (
    [],
    ap (close_peer proto writes) (close_peer_channel-recipient last token sender)
        ∙ close_peer-named (recipient last token sender),
  )
  read_pump_closes sender token ((sm, b) ∷ rest) last =
      let (front, e) = read_pump_closes sender token rest last in
      (
        handle_frame proto writes (proto.unmarshal b) sm sender token ++ front,
        rw (e, append_assoc) refl,
      )

  -- Whatever frames a pump reads, with whatever session tables, and whichever of its writes fail: what it
  -- writes to a channel is, in the order of the frames, the messages that it read while the channel was
  -- the peer of the pump's own, and a pong for each ping if it is the pump's own channel, and nothing
  -- else. Its last act, when its own channel fails, is to close the peer that the session table names
  -- then, if it names one.
  pub read_pump_forwards :
      (sender ch : Channel) (token : Bytes) (inputs : List (SessionManager × Bytes))
      (last : SessionManager)
      → (written_to ch (read_pump proto writes sender token inputs last)
          ≡ all_due proto sender token ch inputs)
        × (front : List Effect) × (read_pump proto writes sender token inputs last
            ≡ front ++ closing (recipient last token sender))
  read_pump_forwards sender ch token inputs last =
      let (front, closes) = read_pump_closes sender token inputs last in
      (read_pump-due sender ch token inputs last, front, closes)
