-- ===== src/Relay/Session.antt =====
-- cmd/relay/internal/services/session.go: the table of relay sessions. A *exchange.Channel is its
-- identity, a number; nil is `none`, and so is the zero time. Every function takes the time that it
-- reads. What a lock guards is one step, so Create is its purge and then `create_locked`.
pub mod Capacity
pub mod Pairing
pub mod Expiry
use kamune.Prelude.{
  ℕ, suc, ◌+◌, Bool, true, false, ◌&&◌, not, if◌then◌else◌, ltb, leb, ◌==◌, Option, none, some,
  List, [], ◌∷◌, ◌++◌, Bytes, hex, length, Result, ok, err, ◌>>=◌,
}
use kamune.Prelude.Dict
use kamune.Prelude.Dict.{Dict}
use kamune.Relay.Token.{TokenError, validate_user_token}

pub data SessionError : Type 0 where
  session_full token_not_found token_consumed peer_not_found session_expired token_in_use
        random_failed :
      SessionError
  invalid_token : TokenError → SessionError

abbrev pub Channel : Type 0
Channel = ℕ

pub record Session : Type 0 where
  pub listener : Channel
  pub dialer : Option Channel
  pub expiry : ℕ
  pub session_expiry : Option ℕ

pub record SessionManager : Type 0 where
  pub sessions : Dict Session
  pub ttl : ℕ
  pub session_ttl : ℕ
  pub max_conns : ℕ

unfoldable pub new_session_manager : ℕ → ℕ → ℕ → SessionManager
new_session_manager ttl max_conns session_ttl = record {
  sessions = [];
  ttl = ttl;
  session_ttl = session_ttl;
  max_conns = max_conns;
}

abbrev pub token_key : Bytes → Bytes
token_key token = hex token

-- The part of Create under the lock; `draw` is the random token, or `none` if rand.Read failed.
unfoldable pub create_locked :
    SessionManager → ℕ → Option Bytes → Channel → SessionManager × Result SessionError Bytes
create_locked sm now draw listener =
    if leb sm.max_conns (length sm.sessions) then (sm, err session_full) else elim draw [
      | none ↦ (sm, err random_failed)
      | some token ↦ (
        record sm {
          sessions =
              Dict.insert (token_key token)
                (record {
                  listener = listener;
                  dialer = none;
                  expiry = now + sm.ttl;
                  session_expiry = none;
                })
                sm.sessions;
        },
        ok token,
      )
    ]

-- The part of CreateWith under the lock.
unfoldable pub create_with_locked :
    SessionManager → ℕ → Channel → Bytes → SessionManager × Result SessionError (Unit {0})
create_with_locked sm now listener token =
    if leb sm.max_conns (length sm.sessions)
    then (sm, err session_full)
    else elim (Dict.lookup (token_key token) sm.sessions) [
      | some _ ↦ (sm, err token_in_use)
      | none ↦ (
        record sm {
          sessions =
              Dict.insert (token_key token)
                (record {
                  listener = listener;
                  dialer = none;
                  expiry = now + sm.ttl;
                  session_expiry = none;
                })
                sm.sessions;
        },
        ok tt,
      )
    ]

-- The deadline of a paired session; there is none if session_ttl is 0.
abbrev pub paired_expiry : SessionManager → ℕ → Option ℕ → Option ℕ
paired_expiry sm now before = if ltb 0 sm.session_ttl then some (now + sm.session_ttl) else before

-- Join on the session found under the key.
pub join_found :
    Option Session
    → SessionManager
    → Bytes
    → ℕ
    → Channel
    → SessionManager × Result SessionError (Unit {0})
join_found none sm key now dialer = (sm, err token_not_found)
join_found (some sess) sm key now dialer =
    if ltb sess.expiry now
    then (record sm { sessions = Dict.delete key sm.sessions }, err session_expired)
    else elim sess.dialer [
      | some _ ↦ (sm, err token_consumed)
      | none ↦ (
        record sm {
          sessions =
              Dict.insert key
                (record sess {
                  dialer = some dialer;
                  session_expiry = paired_expiry sm now sess.session_expiry;
                })
                sm.sessions;
        },
        ok tt,
      )
    ]

unfoldable pub join :
    SessionManager → Bytes → ℕ → Channel → SessionManager × Result SessionError (Unit {0})
unfolding join_found
join sm token now dialer =
    join_found (Dict.lookup (token_key token) sm.sessions) sm (token_key token) now dialer

-- A pointer comparison with a field that may be nil; the other side never is.
abbrev pub is_channel : Option Channel → Channel → Bool
is_channel none ch = false
is_channel (some d) ch = d == ch

abbrev pub or_not_found : Option Channel → Result SessionError Channel
or_not_found none = err peer_not_found
or_not_found (some d) = ok d

-- The switch of Recipient.
abbrev pub other_end : Session → Channel → Result SessionError Channel
other_end sess sender =
    if sess.listener == sender
    then or_not_found sess.dialer
    else (if is_channel sess.dialer sender then ok sess.listener else err peer_not_found)

unfoldable pub recipient : SessionManager → Bytes → Channel → Result SessionError Channel
recipient sm token sender = elim (Dict.lookup (token_key token) sm.sessions) [
  | none ↦ err token_not_found
  | some sess ↦ other_end sess sender
]

-- ClosePeerChannel: the channel that it closes, if any.
unfoldable pub close_peer_channel : SessionManager → Bytes → Channel → Option Channel
close_peer_channel sm token closed = elim (Dict.lookup (token_key token) sm.sessions) [
  | none ↦ none
  | some sess ↦
      if sess.listener == closed
      then sess.dialer
      else (if is_channel sess.dialer closed then some sess.listener else none)
]

unfoldable pub remove : SessionManager → Bytes → SessionManager
remove sm token = record sm { sessions = Dict.delete (token_key token) sm.sessions }

abbrev pub len : SessionManager → ℕ
len sm = length sm.sessions

-- `now.After(t)` for a time that may be zero.
abbrev pub is_past : ℕ → Option ℕ → Bool
is_past now none = false
is_past now (some t) = ltb t now

-- The two cases of the switch in purgeExpired.
unfoldable pub is_expired : ℕ → Session → Bool
is_expired now sess = elim sess.dialer [
  | none ↦ ltb sess.expiry now
  | some _ ↦ is_past now sess.session_expiry
]

abbrev pub ends : Session → List Channel
ends sess = elim sess.dialer [ none ↦ sess.listener ∷ [] | some d ↦ sess.listener ∷ d ∷ [] ]

-- The channels that purgeExpired closes.
unfoldable pub closed_by : ℕ → Dict Session → List Channel
closed_by now [] = []
closed_by now ((k, sess) ∷ m) =
    let rest = closed_by now m in if is_expired now sess then ends sess ++ rest else rest

unfoldable pub purge_expired : ℕ → SessionManager → SessionManager × List Channel
purge_expired now sm = (
  record sm { sessions = Dict.retain (λ sess. not (is_expired now sess)) sm.sessions },
  closed_by now sm.sessions,
)

-- Create: the state, the channels closed by its purge, and the result.
unfoldable pub create :
    SessionManager
    → ℕ
    → Option Bytes
    → Channel
    → SessionManager × List Channel × Result SessionError Bytes
create sm now draw listener =
    let (purged, closed) = purge_expired now sm in
    let (sm', r) = create_locked purged now draw listener in (sm', closed, r)

module _ (entropy_above_3 : (ℕ → ℕ) → Bool) where
  unfoldable pub create_with :
      SessionManager
      → ℕ
      → Channel
      → Bytes
      → SessionManager × List Channel × Result SessionError (Unit {0})
  create_with sm now listener token = elim (validate_user_token entropy_above_3 token) [
    | err e ↦ (sm, [], err (invalid_token e))
    | ok _ ↦
        (let (purged, closed) = purge_expired now sm in
          let (sm', r) = create_with_locked purged now listener token in (sm', closed, r))
  ]
