-- ===== src/Examples/Relay.antt =====
-- Sessions of the relay, and messages through it.
use kamune.Prelude.{
  ◌⊎◌, false, ◌≤◌, ◌≡◌, ◌↔◌, refl, arith, if◌then◌else◌, ◌==◌, Option, none, some, List, [], ◌∷◌,
  ◌++◌, Bytes, bytes_equal_refl, length, replicate, ok, err,
}
use kamune.Prelude.Dict
use mathlib.Core.List.{Mem}
use kamune.Relay.Session.{
  Session, SessionManager, new_session_manager, token_key, create_locked, create_with_locked, join,
  recipient, purge_expired, session_expired, token_not_found, token_consumed, peer_not_found,
}
use kamune.Relay.Session.Capacity.{creates, creates_with, joins, Reach, here, next, Reach-capacity}
use kamune.Relay.Session.Pairing.{join_pairs}
use kamune.Relay.Session.Expiry.{IsOver, Dropped, join_drops_live_pair, purge_expired_exact}
use kamune.Relay.Hub.{Effect, Frame, msg, ping, pong, other, Proto, read_pump}
use kamune.Relay.Hub.Forward.{written_to, all_due, closing, read_pump_forwards}

abbrev a_token : Bytes
a_token = replicate 32 5

-- A manager with room for one session, after a listener came, a second was refused and a dialer
-- joined.
abbrev small : SessionManager
small = new_session_manager 100 1 1000

abbrev listened : SessionManager
listened = (create_locked small 0 (some a_token) 1).0

abbrev refused : SessionManager
refused = (create_with_locked listened 1 2 (replicate 32 6)).0

abbrev joined : SessionManager
joined = (join refused a_token 2 3).0

joined-Reach : Reach small joined
joined-Reach =
    next
      (next (next here (creates small 0 (some a_token) 1))
        (creates_with listened 1 2 (replicate 32 6)))
      (joins refused a_token 2 3)

Reach-capacity_example : Dict.IsUnique joined.sessions × (length joined.sessions ≤ 1)
Reach-capacity_example = Reach-capacity 100 1 1000 joined joined-Reach

abbrev waiting_session : Session
waiting_session = record { listener = 1; dialer = none; expiry = 100; session_expiry = none }

abbrev paired_session : Session
paired_session = record { listener = 1; dialer = some 3; expiry = 100; session_expiry = some 1002 }

abbrev holding : Session → SessionManager
holding sess = record {
  sessions = (token_key a_token, sess) ∷ [];
  ttl = 100;
  session_ttl = 1000;
  max_conns = 10;
}

found : (sess : Session) → Dict.lookup (token_key a_token) (holding sess).sessions ≡ some sess
unfolding Dict.lookup
found sess = rw (bytes_equal_refl (token_key a_token))

-- The seated dialer joins again.
join_pairs_example :
    let (sm', r) = join (holding waiting_session) a_token 2 3 in
    (r ≡ ok tt)
    × (recipient sm' a_token 1 ≡ ok 3)
    × (recipient sm' a_token 3 ≡ ok 1)
    × (recipient sm' a_token 4 ≡ err peer_not_found)
    × (join sm' a_token 50 3 ≡ (sm', err token_consumed))
join_pairs_example =
    join_pairs (holding waiting_session) a_token waiting_session 2 50 3 4 3
      (record { found = found waiting_session; alone = refl }) (omega arith) (omega arith)
      (λ e. absurd (omega arith)) (λ e. absurd (omega arith)) (λ e. absurd (omega arith))

join_drops_live_pair_example :
    let (sm', r) = join (holding paired_session) a_token 500 7 in
    (r ≡ err session_expired)
    × (recipient sm' a_token 1 ≡ err token_not_found)
    × (recipient sm' a_token 3 ≡ err token_not_found)
join_drops_live_pair_example =
    join_drops_live_pair (holding paired_session) a_token 500 paired_session 3 7
      (record { found = found paired_session; paired = refl; lives = refl }) (omega arith)

purge_expired_exact_example :
    let left =
      Dict.lookup (token_key a_token) (purge_expired 1003 (holding paired_session)).0.sessions in
    ((IsOver 1003 paired_session × (left ≡ none))
      ⊎ (¬ IsOver 1003 paired_session × (left ≡ some paired_session)))
    × (Mem 3 (purge_expired 1003 (holding paired_session)).1
        ↔ ∥ Dropped 1003 (holding paired_session).sessions 3 ∥₁)
purge_expired_exact_example =
    purge_expired_exact (holding paired_session) a_token 1003 paired_session 3 (tt, tt)
      (found paired_session)

abbrev marshal : Frame → Bytes
marshal (msg b) = 0 ∷ b
marshal ping = 1 ∷ []
marshal pong = 2 ∷ []
marshal other = 3 ∷ []

abbrev unmarshal : Bytes → Option Frame
unmarshal [] = none
unmarshal (n ∷ b) =
    if n == 0
    then some (msg b)
    else (if n == 1 then some ping else (if n == 2 then some pong else some other))

abbrev toy_proto : Proto
toy_proto = record { marshal = marshal; unmarshal = unmarshal }

-- A message, a ping, bytes that are no frame, and a message while nobody is there.
abbrev inputs : List (SessionManager × Bytes)
inputs =
    (holding paired_session, marshal (msg (10 ∷ 11 ∷ [])))
    ∷ (holding paired_session, marshal ping)
    ∷ (holding paired_session, [])
    ∷ (holding waiting_session, marshal (msg (12 ∷ [])))
    ∷ []

read_pump_forwards_example :
    (written_to 3 (read_pump toy_proto (λ ch b. false) 1 a_token inputs (holding paired_session))
      ≡ all_due toy_proto 1 a_token 3 inputs)
    × (front : List Effect) × (read_pump toy_proto
          (λ ch b. false)
          1
          a_token
          inputs
          (holding paired_session)
        ≡ front ++ closing (recipient (holding paired_session) a_token 1))
read_pump_forwards_example =
    read_pump_forwards toy_proto (λ ch b. false) 1 3 a_token inputs (holding paired_session)
