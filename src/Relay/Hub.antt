-- ===== src/Relay/Hub.antt =====
-- cmd/relay/internal/services/hub.go: the read pump of one connection and the forwarding of its
-- messages. A frame is what pb.Frame holds; the protobuf codec is a parameter. The effects of a pump
-- are the channel calls that it makes, in order. Protobuf does not fail on a frame that the code builds.
pub mod Forward
use kamune.Prelude.{
  ℕ, ◌≡◌, Bool, true, false, if◌then◌else◌, Option, none, some, List, [], ◌∷◌, ◌++◌, Bytes, Result,
  ok, err,
}
use kamune.Relay.Session.{
  Session, SessionManager, SessionError, Channel, recipient, close_peer_channel,
}

-- The kinds of pb.Frame that the pump tells apart.
pub data Frame : Type 0 where
  msg : Bytes → Frame
  ping pong other : Frame

-- proto.Marshal and proto.Unmarshal on a frame.
pub record Proto : Type 0 where
  pub marshal : Frame → Bytes
  pub unmarshal : Bytes → Option Frame

pub data Effect : Type 0 where
  write : Channel → Bytes → Effect
  close : Channel → Effect

-- `writes ch b` says whether writing `b` to the channel succeeds.
module _ (proto : Proto) (writes : Channel → Bytes → Bool) where
  unfoldable pub handle_message : SessionManager → Channel → Bytes → Bytes → List Effect
  handle_message sm sender token bytes = elim (recipient sm token sender) [
    | err e ↦ []
    | ok to ↦
        (let b = proto.marshal (msg bytes) in
          write to b ∷ (if writes to b then [] else close sender ∷ close to ∷ []))
  ]

  unfoldable pub handle_ping : Channel → List Effect
  handle_ping ch = write ch (proto.marshal pong) ∷ []

  abbrev pub handle_frame : Option Frame → SessionManager → Channel → Bytes → List Effect
  handle_frame none sm ch token = []
  handle_frame (some (msg bytes)) sm ch token = handle_message sm ch token bytes
  handle_frame (some ping) sm ch token = handle_ping ch
  handle_frame (some pong) sm ch token = []
  handle_frame (some other) sm ch token = []

  -- What the deferred ClosePeerChannel does once reading fails.
  abbrev pub close_peer : Option Channel → List Effect
  close_peer none = []
  close_peer (some ch) = close ch ∷ []

  -- ReadPump on what the channel delivers before its read fails, each read with the session table of
  -- that moment, and the table at the end.
  unfoldable pub read_pump :
      Channel → Bytes → List (SessionManager × Bytes) → SessionManager → List Effect
  read_pump ch token [] last = close_peer (close_peer_channel last token ch)
  read_pump ch token ((sm, b) ∷ rest) last =
      handle_frame (proto.unmarshal b) sm ch token ++ read_pump ch token rest last
