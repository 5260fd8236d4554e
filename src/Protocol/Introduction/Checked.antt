-- ===== src/Protocol/Introduction/Checked.antt =====
-- What the messages in front of a handshake have met when they go through (intro.go, resume.go).
use kamune.Prelude.{
  ◌≡◌, refl, sym, arith, if◌then◌else◌, Bool, true, false, ==_iff, Option, none, some, List, [],
  ◌∷◌, Bytes, ok,
}
use kamune.Protocol.Route.{route_identity, route_resume_accept}
use kamune.Protocol.Serde.{Externals, SignedTransport, Draws}
use kamune.Protocol.Transport.{ReadResult}
use kamune.Protocol.Network.{◌>>=◌, or_fail, write_or, play}
use kamune.Protocol.Network.Play.{Ends, play-or_fail, play-require, play-lift, play-pure}
use kamune.Protocol.Introduction.{
  Introduce, Codecs, Attest, marshalling, writing, signed_payload, plain_metadata,
  resumption_not_available, send_resume_accept, send_introduction, route_from_st, is_signed_by,
  receive_introduction,
}
use kamune.Storage.Peers.{Peer}

-- A write at the end of a procedure reads nothing.
play-write :
    {E : Type 0} (b : Bytes) (y : E) (rs : List ReadResult) (ws : List Bool) (u : Unit {0})
    (rs2 : List ReadResult) (ws2 : List Bool)
    → Ends (write_or b y) rs ws u rs2 ws2
    → rs2 ≡ rs
unfolding play
play-write b y rs [] u rs2 ws2 h = ground arith
play-write b y rs (false ∷ ws) u rs2 ws2 h = ground arith
play-write b y rs (true ∷ ws) u rs2 ws2 h = ground arith

play-sent :
    {E : Type 0} (o : Option Bytes) (y : E) (g : Bytes → Bytes) (z : E) (rs : List ReadResult)
    (ws : List Bool) (u : Unit {0}) (rs2 : List ReadResult) (ws2 : List Bool)
    → Ends (or_fail o y >>= λ m. write_or (g m) z) rs ws u rs2 ws2
    → rs2 ≡ rs
unfolding play
play-sent none y g z rs ws u rs2 ws2 h = ground arith
play-sent (some m) y g z rs ws u rs2 ws2 h = play-write (g m) z rs ws u rs2 ws2 h

module _ (x : Externals Bytes) (c : Codecs) where
  pub send_resume_accept-Ends :
      (at : Attest) (accepted : Bool) (draws : Draws) (rs : List ReadResult) (ws : List Bool)
      (u : Unit {0}) (rs2 : List ReadResult) (ws2 : List Bool)
      → Ends (send_resume_accept x c at accepted draws) rs ws u rs2 ws2
      → rs2 ≡ rs
  unfolding send_resume_accept
  send_resume_accept-Ends at accepted draws rs ws u rs2 ws2 h =
      play-sent
        (c.resume_accept.marshal (record {
          accepted = accepted;
          reason = if accepted then [] else resumption_not_available;
        }))
        marshalling (λ m. signed_payload x c at (plain_metadata x c 0 route_resume_accept) m draws)
        writing rs ws u rs2 ws2 h

  pub send_introduction-Ends :
      (at : Attest) (name version : Bytes) (draws : Draws) (rs : List ReadResult) (ws : List Bool)
      (u : Unit {0}) (rs2 : List ReadResult) (ws2 : List Bool)
      → Ends (send_introduction x c at name version draws) rs ws u rs2 ws2
      → rs2 ≡ rs
  unfolding send_introduction
  send_introduction-Ends at name version draws rs ws u rs2 ws2 h =
      play-sent
        (c.introduce.marshal
          (record { name = name; public_key = at.public_key; app_version = version }))
        marshalling
        (λ m. signed_payload x c at (plain_metadata x c draws.timestamp route_identity) m draws)
        writing rs ws u rs2 ws2 h

  -- The introduction is on its route, it names this peer, and it is signed with the peer's own key.
  pub record IsIntroduced (st : SignedTransport) (peer : Peer) : Type 0 where
    pub on_route : route_from_st x c st ≡ ok route_identity
    pub introduce : Introduce
    pub decoded : c.introduce.unmarshal st.payload ≡ some introduce
    pub same : peer ≡ record {
      first_seen = 0;
      last_seen = 0;
      name = introduce.name;
      app_version = introduce.app_version;
      public_key = introduce.public_key;
    }
    pub signed : is_signed_by x c introduce.public_key st ≡ true

  pub receive_introduction-Ends :
      (st : SignedTransport) (rs : List ReadResult) (ws : List Bool) (peer : Peer)
      (rs2 : List ReadResult) (ws2 : List Bool)
      → Ends (receive_introduction x c st) rs ws peer rs2 ws2
      → (rs2 ≡ rs) × IsIntroduced st peer
  unfolding receive_introduction
  receive_introduction-Ends st rs ws peer rs2 ws2 h =
      let (r, hr, h1) = play-lift rs ws peer rs2 ws2 (λ y. y) (route_from_st x c st) _ h in
      let (on_route, h2) = play-require rs ws peer rs2 ws2 _ _ _ h1 in
      let (introduce, decoded, h3) = play-or_fail rs ws peer rs2 ws2 _ _ _ h2 in
      let (signed, h4) = play-require rs ws peer rs2 ws2 _ _ _ h3 in
      let (same, e) = play-pure rs ws peer rs2 ws2 _ h4 in
      (
        e,
        record {
          on_route = rw hr (rw ((==_iff r route_identity).0 on_route) refl);
          introduce = introduce;
          decoded = decoded;
          same = sym same;
          signed = signed;
        },
      )
