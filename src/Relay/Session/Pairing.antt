-- ===== src/Relay/Session/Pairing.antt =====
-- Join and Recipient of the session manager.
use kamune.Prelude.{
  ℕ, ◌≤◌, ◌≡◌, ◌≢◌, refl, ◌∙◌, arith, le→ltb, none, some, Bytes, bytes_equal_refl, ok, err,
}
use kamune.Prelude.Dict
use kamune.Relay.Session.{
  Session, SessionManager, Channel, token_key, join, join_found, recipient, paired_expiry,
  token_consumed, peer_not_found,
}

-- The session that the token names is open to a dialer.
pub record IsWaiting (sm : SessionManager) (token : Bytes) (sess : Session) : Type 0 where
  pub found : Dict.lookup (token_key token) sm.sessions ≡ some sess
  pub alone : sess.dialer ≡ none

abbrev pub paired : SessionManager → ℕ → Session → Channel → Session
paired sm now sess dialer = record sess {
  dialer = some dialer;
  session_expiry = paired_expiry sm now sess.session_expiry;
}

-- The state after a join that is in time.
join_waiting :
    (sm : SessionManager) (token : Bytes) (sess : Session) (now : ℕ) (dialer : Channel)
    → IsWaiting sm token sess
    → now ≤ sess.expiry
    → join sm token now dialer ≡ (
      record sm {
        sessions = Dict.insert (token_key token) (paired sm now sess dialer) sm.sessions;
      },
      ok tt,
    )
unfolding join
join_waiting sm token sess now dialer w h =
    rw (w.found, join_found) (rw (le→ltb sess.expiry now h) (rw (w.alone, join_found)))

-- A dialer that joins an open session before it expires becomes the listener's recipient, and the
-- listener the dialer's. Any other channel has no recipient under the token. Whoever joins again until
-- the expiry, a stranger or one of the two, is refused as consumed and changes nothing.
pub join_pairs :
    (sm : SessionManager) (token : Bytes) (sess : Session) (now later : ℕ)
    (dialer other again : Channel)
    → IsWaiting sm token sess
    → now ≤ sess.expiry
    → later ≤ sess.expiry
    → sess.listener ≢ dialer
    → other ≢ sess.listener
    → other ≢ dialer
    → let (sm', r) = join sm token now dialer in
      (r ≡ ok tt)
      × (recipient sm' token sess.listener ≡ ok dialer)
      × (recipient sm' token dialer ≡ ok sess.listener)
      × (recipient sm' token other ≡ err peer_not_found)
      × (join sm' token later again ≡ (sm', err token_consumed))
join_pairs sm token sess now later dialer other again w h l different n m =
    rw (join_waiting sm token sess now dialer w h)
      (refl, from_listener, from_dialer, from_other, refused)
  where
    after : SessionManager
    after = record sm {
      sessions = Dict.insert (token_key token) (paired sm now sess dialer) sm.sessions;
    }

    found : Dict.lookup (token_key token) after.sessions ≡ some (paired sm now sess dialer)
    found =
        Dict.lookup-insert (token_key token) (token_key token) (paired sm now sess dialer)
          sm.sessions
        ∙ rw (bytes_equal_refl (token_key token))

    from_listener : recipient after token sess.listener ≡ ok dialer
    from_listener = unfold recipient in rw (found, recipient) (ground arith)

    from_dialer : recipient after token dialer ≡ ok sess.listener
    from_dialer = unfold recipient in rw (found, recipient) (ground arith)

    from_other : recipient after token other ≡ err peer_not_found
    from_other = unfold recipient in rw (found, recipient) (ground arith)

    refused : join after token later again ≡ (after, err token_consumed)
    refused = unfold join in rw (found, join_found) (rw (le→ltb sess.expiry later l))
