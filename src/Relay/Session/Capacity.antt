-- ===== src/Relay/Session/Capacity.antt =====
-- The size of the session table over the locked sections of the session manager.
use kamune.Prelude.{
  ℕ, ◌≤◌, ◌<◌, ◌≡◌, refl, inl, inr, arith, not, Bool-cases, Option-cases, ltb, leb, Option, none,
  some, Bytes, length,
}
use kamune.Prelude.Dict
use kamune.Relay.Session.{
  Session, SessionManager, Channel, token_key, new_session_manager, create_locked,
  create_with_locked, join_found, join, remove, purge_expired, is_expired,
}

-- One locked section of the session manager, run at some time by some connection.
pub data Step : SessionManager → SessionManager → Type 0 where
  creates :
      (sm : SessionManager) (now : ℕ) (draw : Option Bytes) (ch : Channel)
      → Step sm (create_locked sm now draw ch).0
  creates_with :
      (sm : SessionManager) (now : ℕ) (ch : Channel) (token : Bytes)
      → Step sm (create_with_locked sm now ch token).0
  joins :
      (sm : SessionManager) (token : Bytes) (now : ℕ) (ch : Channel)
      → Step sm (join sm token now ch).0
  removes : (sm : SessionManager) (token : Bytes) → Step sm (remove sm token)
  purges : (sm : SessionManager) (now : ℕ) → Step sm (purge_expired now sm).0

pub data Reach (s : SessionManager) : SessionManager → Type 0 where
  here : Reach s s
  next : {t u : SessionManager} → Reach s t → Step t u → Reach s u

-- The table is a map, and has at most `cap` sessions.
pub record IsBounded (cap : ℕ) (sm : SessionManager) : Type 0 where
  pub unique : Dict.IsUnique sm.sessions
  pub limit : sm.max_conns ≡ cap
  pub fits : length sm.sessions ≤ cap

inserts-IsBounded :
    (cap : ℕ) (sm : SessionManager) (k : Bytes) (sess : Session)
    → IsBounded cap sm
    → length sm.sessions < sm.max_conns
    → IsBounded cap (record sm { sessions = Dict.insert k sess sm.sessions })
inserts-IsBounded cap sm k sess h room = record {
  unique = Dict.insert-IsUnique k sess sm.sessions h.unique;
  limit = h.limit;
  fits = omega (arith, h, Dict.length-insert k sess sm.sessions);
}

deletes-IsBounded :
    (cap : ℕ) (sm : SessionManager) (k : Bytes)
    → IsBounded cap sm
    → IsBounded cap (record sm { sessions = Dict.delete k sm.sessions })
deletes-IsBounded cap sm k h = record {
  unique = Dict.delete-IsUnique k sm.sessions h.unique;
  limit = h.limit;
  fits = omega (arith, h, Dict.length-delete k sm.sessions);
}

create_locked-IsBounded :
    (cap : ℕ) (sm : SessionManager) (now : ℕ) (draw : Option Bytes) (ch : Channel)
    → IsBounded cap sm
    → IsBounded cap (create_locked sm now draw ch).0
unfolding create_locked
create_locked-IsBounded cap sm now none ch h =
    elim (Bool-cases (leb sm.max_conns (length sm.sessions))) [ inl e ↦ rw e h | inr e ↦ rw e h ]
create_locked-IsBounded cap sm now (some token) ch h =
    elim (Bool-cases (leb sm.max_conns (length sm.sessions))) [
      | inl e ↦ rw e h
      | inr e ↦ rw e (inserts-IsBounded cap sm (token_key token) _ h (ground arith))
    ]

create_with_locked-IsBounded :
    (cap : ℕ) (sm : SessionManager) (now : ℕ) (ch : Channel) (token : Bytes)
    → IsBounded cap sm
    → IsBounded cap (create_with_locked sm now ch token).0
unfolding create_with_locked
create_with_locked-IsBounded cap sm now ch token h =
    elim (Bool-cases (leb sm.max_conns (length sm.sessions))) [
      | inl e ↦ rw e h
      | inr e ↦ rw e (elim (Option-cases (Dict.lookup (token_key token) sm.sessions)) [
        | inl f ↦
            rw (f, create_with_locked)
              (inserts-IsBounded cap sm (token_key token) _ h (ground arith))
        | inr (sess, f) ↦ rw (f, create_with_locked) h
      ])
    ]

join_found-IsBounded :
    (cap : ℕ) (o : Option Session) (sm : SessionManager) (k : Bytes) (now : ℕ) (ch : Channel)
    → Dict.lookup k sm.sessions ≡ o
    → IsBounded cap sm
    → IsBounded cap (join_found o sm k now ch).0
unfolding join_found
join_found-IsBounded cap none sm k now ch e h = h
join_found-IsBounded cap (some sess) sm k now ch e h = elim (Bool-cases (ltb sess.expiry now)) [
  | inl q ↦ rw q (deletes-IsBounded cap sm k h)
  | inr q ↦ rw q (elim (Option-cases sess.dialer) [
    | inl d ↦ rw (d, join_found) (overwritten _)
    | inr (x, d) ↦ rw (d, join_found) h
  ])
]
  where
    overwritten :
        (new : Session) → IsBounded cap (record sm { sessions = Dict.insert k new sm.sessions })
    overwritten new = record {
      unique = Dict.insert-IsUnique k new sm.sessions h.unique;
      limit = h.limit;
      fits = omega (arith, h, Dict.length-insert_old k new sess sm.sessions e);
    }

Step-IsBounded : {t u : SessionManager} (cap : ℕ) → Step t u → IsBounded cap t → IsBounded cap u
Step-IsBounded cap (creates sm now draw ch) h = create_locked-IsBounded cap sm now draw ch h
Step-IsBounded cap (creates_with sm now ch token) h =
    create_with_locked-IsBounded cap sm now ch token h
Step-IsBounded cap (joins sm token now ch) h =
    unfold join in join_found-IsBounded cap _ sm (token_key token) now ch refl h
Step-IsBounded cap (removes sm token) h =
    unfold remove in deletes-IsBounded cap sm (token_key token) h
Step-IsBounded cap (purges sm now) h =
    unfold purge_expired in
    record {
      unique = Dict.retain-IsUnique (λ sess. not (is_expired now sess)) sm.sessions h.unique;
      limit = h.limit;
      fits = omega (arith, h, Dict.length-retain (λ sess. not (is_expired now sess)) sm.sessions);
    }

-- Every state of a run keeps the bound of the state where the run began.
Reach-IsBounded : {s t : SessionManager} (cap : ℕ) → Reach s t → IsBounded cap s → IsBounded cap t
Reach-IsBounded cap here h = h
Reach-IsBounded cap (next r st) h = Step-IsBounded cap st (Reach-IsBounded cap r h)

-- However the locked sections of Create, CreateWith, Join, Remove and purgeExpired interleave from a
-- new manager on, no token has two sessions and there are at most `max_conns` sessions.
pub Reach-capacity :
    (ttl max_conns session_ttl : ℕ) (sm : SessionManager)
    → Reach (new_session_manager ttl max_conns session_ttl) sm
    → Dict.IsUnique sm.sessions × (length sm.sessions ≤ max_conns)
Reach-capacity ttl max_conns session_ttl sm r =
    let h : IsBounded max_conns sm = Reach-IsBounded max_conns r start in (h.unique, h.fits)
  where
    start : IsBounded max_conns (new_session_manager ttl max_conns session_ttl)
    start = unfold new_session_manager in record { unique = tt; limit = refl; fits = omega arith }
