-- ===== src/Protocol/Endpoint/Resumption.antt =====
-- What a server has checked when it resumes a session (handleResume, server.go).
use kamune.Prelude.{
  ℕ, ◌+◌, ◌≤◌, ◌≡◌, refl, sym, ap, subst, ◌∙◌, arith, Bool, true, false, not, ltb, some, List,
  Bytes, Result, ok, err,
}
use kamune.Protocol.Serde.{Externals, Codec, SignedTransport, Draws}
use kamune.Protocol.Transport.{ReadResult}
use kamune.Protocol.Network.{◌>>=◌, ◌>>◌, wrap, play}
use kamune.Protocol.Network.Play.{Ends, play-bind, play-wrap, play-or_fail, play-lift, play-pure}
use kamune.Protocol.Exchange.{Primitives}
use kamune.Protocol.Handshake.{Handshake, accept_handshake}
use kamune.Protocol.Handshake.Responder.{IsAsked, accept_handshake-Ends}
use kamune.Protocol.Introduction.{Codecs, ResumeRequest, is_signed_by, send_resume_accept}
use kamune.Protocol.Introduction.Checked.{send_resume_accept-Ends}
use kamune.Storage.Engine.{Engine}
use kamune.Storage.Session.{Storage, StorageError, remove_list_item}
use kamune.Storage.Peers.{Peer, PeerStore}
use kamune.Storage.Records.{resumption_tokens_key, get_peer, get_established_at}
use kamune.Protocol.Endpoint.{
  Endpoint, EndpointDraws, EndpointError, Established, Served, stored, store_tokens, serde_for,
  reject, reject_unless, take_token, resume_accepted, resume_checked, resume_timed, resume_taken,
  resume_asked, handle_resume, resumption_grace_period, message, handshaking, getting_session,
}

-- An operation on the storage that a procedure goes on from has succeeded.
play-stored :
    {E A B : Type 0} (f : E → EndpointError) (out : Storage × Result E A)
    (k : Storage × A → Served B) (rs : List ReadResult) (ws : List Bool) (b : B)
    (rs2 : List ReadResult) (ws2 : List Bool)
    → Ends (stored f out >>= k) rs ws b rs2 ws2
    → (s : Storage) × (a : A) × (out ≡ (s, ok a)) × Ends (k (s, a)) rs ws b rs2 ws2
unfolding play
play-stored f (s, err y) k rs ws b rs2 ws2 h = ground arith
play-stored f (s, ok a) k rs ws b rs2 ws2 h = (s, a, refl, h)

module _ (x : Externals Bytes) (c : Codecs) (hc : Codec Handshake) (p : Primitives) (e : Engine)
    (ps : PeerStore) (me : Endpoint) {B : Type 0} where
  -- A rejection ends with an error.
  reject-Ends :
      {A : Type 0} (s : Storage) (why : EndpointError) (draws : Draws) (k : A → Served B)
      (rs : List ReadResult) (ws : List Bool) (b : B) (rs2 : List ReadResult) (ws2 : List Bool)
      → Ends (reject x c hc p e ps me s why draws >>= k) rs ws b rs2 ws2
      → ⊥
  unfolding reject play
  reject-Ends s why draws k rs ws b rs2 ws2 h =
      let (a, rs1, ws1, r, _) =
        play-bind (reject x c hc p e ps me s why draws) k rs ws b rs2 ws2 h in
      let (u, rs3, ws3, _, bad) =
        play-bind (wrap (λ m. (s, message m)) (send_resume_accept x c me.attest false draws)) _ rs
          ws a rs1 ws1 r in
      ground arith

  play-reject_unless :
      (t : Bool) (s : Storage) (why : EndpointError) (draws : Draws) (k : Served B)
      (rs : List ReadResult) (ws : List Bool) (b : B) (rs2 : List ReadResult) (ws2 : List Bool)
      → Ends (reject_unless x c hc p e ps me t s why draws >> k) rs ws b rs2 ws2
      → (t ≡ true) × Ends k rs ws b rs2 ws2
  play-reject_unless true s why draws k rs ws b rs2 ws2 h = (refl, h)
  play-reject_unless false s why draws k rs ws b rs2 ws2 h =
      absurd (reject-Ends s why draws _ rs ws b rs2 ws2 h)

  play-take_token :
      (draws : Draws) (out : Storage × Result StorageError (Unit {0})) (k : Storage → Served B)
      (rs : List ReadResult) (ws : List Bool) (b : B) (rs2 : List ReadResult) (ws2 : List Bool)
      → Ends (take_token x c hc p e ps me draws out >>= k) rs ws b rs2 ws2
      → (s : Storage) × (out ≡ (s, ok tt)) × Ends (k s) rs ws b rs2 ws2
  play-take_token draws (s, ok u) k rs ws b rs2 ws2 h = (s, refl, h)
  play-take_token draws (s, err y) k rs ws b rs2 ws2 h =
      absurd (reject-Ends s _ draws k rs ws b rs2 ws2 h)

module _ (x : Externals Bytes) (c : Codecs) (hc : Codec Handshake) (p : Primitives) (e : Engine)
    (ps : PeerStore) (me : Endpoint) where
  resume_accepted-Ends :
      (s : Storage) (peer : Peer) (id : Bytes) (d : EndpointDraws) (rs : List ReadResult)
      (ws : List Bool) (est : Established) (rs2 : List ReadResult) (ws2 : List Bool)
      → Ends (resume_accepted x c hc p e ps me s peer id d) rs ws est rs2 ws2
      → IsAsked x hc p (serde_for x c hc p e ps me peer) id d.handshake est.session rs rs2
        × (est.peer ≡ peer)
        × (est.storage ≡ store_tokens x c hc p e ps me s est.session d.tokens)
  unfolding resume_accepted
  resume_accepted-Ends s peer id d rs ws est rs2 ws2 h =
      let serde = serde_for x c hc p e ps me peer in
      let (u, rs3, ws3, sent, h7) =
        play-bind (wrap (λ m. (s, message m)) (send_resume_accept x c me.attest true d.resumption))
          _ rs ws est rs2 ws2 h in
      let e3 =
        send_resume_accept-Ends x c me.attest true d.resumption rs ws u rs3 ws3
          (play-wrap _ _ rs ws u rs3 ws3 sent) in
      let (t, rs4, ws4, accepted, h8) =
        play-bind (wrap (λ m. (s, handshaking m)) (accept_handshake x hc p serde id d.handshake)) _
          rs3 ws3 est rs2 ws2 h7 in
      let asked =
        accept_handshake-Ends x hc p serde id d.handshake rs3 ws3 t rs4 ws4
          (play-wrap _ _ rs3 ws3 t rs4 ws4 accepted) in
      let (last, e5) = play-pure rs4 ws4 est rs2 ws2 _ h8 in
      let session : t ≡ est.session = ap (λ f. f.session) last in
      (
        subst (λ l. IsAsked x hc p serde id d.handshake est.session l rs2) e3
            (subst (λ l. IsAsked x hc p serde id d.handshake est.session rs3 l) (sym e5)
              (subst (λ f. IsAsked x hc p serde id d.handshake f rs3 rs4) session asked)),
        ap (λ f. f.peer) (sym last),
        ap (λ f. f.storage) (sym last)
            ∙ ap (λ f. store_tokens x c hc p e ps me s f d.tokens) session,
      )

  pub record IsResumed (s : Storage) (st : SignedTransport) (now : ℕ) (d : EndpointDraws)
      (est : Established) (rs rs2 : List ReadResult) : Type 0 where
    pub req : ResumeRequest
    pub decoded : c.resume_request.unmarshal st.payload ≡ some req
    pub s1 : Storage
    pub removed :
        remove_list_item e s req.session_id resumption_tokens_key req.token d.removal ≡ (s1, ok tt)
    pub s2 : Storage
    pub peer_found : get_peer e ps s1 req.session_id now ≡ (s2, ok est.peer)
    pub established_at : ℕ
    pub established : get_established_at e ps s2 req.session_id ≡ ok established_at
    pub signed : is_signed_by x c est.peer.public_key st ≡ true
    pub in_time : now ≤ established_at + resumption_grace_period
    pub asked :
        IsAsked x hc p
          (serde_for x c hc p e ps me est.peer)
          req.session_id
          d.handshake
          est.session
          rs
          rs2
    pub renewed : est.storage ≡ store_tokens x c hc p e ps me s2 est.session d.tokens

  -- A session from handleResume, whatever the other end sends: the token of the request was on the list
  -- of the session that it names, and was taken off it; the request is signed by the peer of that
  -- session; not more than the grace period has passed since the session was established; the handshake
  -- behind it was accepted from that peer, with the ID of the session; and the tokens of the new session
  -- have been written to the storage, if that was possible.
  pub handle_resume-Ends :
      (s : Storage) (st : SignedTransport) (now : ℕ) (d : EndpointDraws) (rs : List ReadResult)
      (ws : List Bool) (est : Established) (rs2 : List ReadResult) (ws2 : List Bool)
      → play (handle_resume x c hc p e ps me s st now d) rs ws ≡ some (ok est, rs2, ws2)
      → IsResumed s st now d est rs rs2
  unfolding handle_resume resume_asked resume_taken resume_timed resume_checked
  handle_resume-Ends s st now d rs ws est rs2 ws2 h =
      let (req, decoded, h1) =
        play-or_fail rs ws est rs2 ws2 (c.resume_request.unmarshal st.payload)
          (s, EndpointError.deserializing) (λ r. resume_asked x c hc p e ps me s st now d r) h in
      let id = req.session_id in
      let (s1, removed, h2) =
        play-take_token x c hc p e ps me d.resumption
          (remove_list_item e s id resumption_tokens_key req.token d.removal)
          (λ s'. resume_taken x c hc p e ps me st now d id s') rs ws est rs2 ws2 h1 in
      let (s2, peer, peer_found, h3) =
        play-stored getting_session (get_peer e ps s1 id now)
          (λ f. resume_timed x c hc p e ps me s1 st now d id f) rs ws est rs2 ws2 h2 in
      let (established_at, established, h4) =
        play-lift rs ws est rs2 ws2 (λ y. (s2, getting_session y)) (get_established_at e ps s2 id)
          (λ t. resume_checked x c hc p e ps me s2 st now d peer id t) h3 in
      let (signed, h5) =
        play-reject_unless x c hc p e ps me (is_signed_by x c peer.public_key st) s2
          EndpointError.invalid_signature d.resumption _ rs ws est rs2 ws2 h4 in
      let (in_time, h6) =
        play-reject_unless x c hc p e ps me
          (not (ltb (established_at + resumption_grace_period) now)) s2
          EndpointError.session_expired d.resumption (resume_accepted x c hc p e ps me s2 peer id d)
          rs ws est rs2 ws2 h5 in
      let (asked, same, renewed) = resume_accepted-Ends s2 peer id d rs ws est rs2 ws2 h6 in
      record {
        req = req;
        decoded = decoded;
        s1 = s1;
        removed = removed;
        s2 = s2;
        peer_found = subst (λ q. get_peer e ps s1 id now ≡ (s2, ok q)) (sym same) peer_found;
        established_at = established_at;
        established = established;
        signed = subst (λ q. is_signed_by x c q.public_key st ≡ true) (sym same) signed;
        in_time = ground arith;
        asked =
            subst
              (λ q. IsAsked x hc p (serde_for x c hc p e ps me q) id d.handshake est.session rs rs2)
              (sym same) asked;
        renewed = renewed;
      }
