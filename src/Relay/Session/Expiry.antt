-- ===== src/Relay/Session/Expiry.antt =====
-- The two lifetimes of a session: the token's, before it is paired, and the session's, after.
use kamune.Prelude.{
  Option-cases, ltb→lt, ap, sym, ◌⊎◌, ℕ, ◌<◌, ◌≡◌, refl, ◌∙◌, inl, inr, arith, true, false, not,
  Bool-cases, lt→ltb, none, some, [], ◌∷◌, Bytes, bytes_equal, bytes_equal_refl, eq_of_bytes_equal,
  ◌↔◌, err,
}
use mathlib.Core.List.{
  Mem, Mem-prop, mem-cons, mem-cons_self, mem-cons_of_mem, mem-append, mem-append_left,
  mem-append_right, not-mem-nil,
}
use mathlib.Core.Logic.{∥∥₁_elim, ∥∥₁_map}
use mathlib.Core.Logic.Or
use kamune.Prelude.Dict
use kamune.Prelude.Dict.{Dict}
use kamune.Relay.Session.{
  Session, SessionManager, Channel, token_key, join, join_found, recipient, purge_expired,
  is_expired, is_past, closed_by, ends, session_expired, token_not_found,
}

-- A session that is paired, and whose own lifetime has not passed at the given time.
pub record IsLive (sm : SessionManager) (token : Bytes) (now : ℕ) (sess : Session)
    (dialer : Channel) : Type 0 where
  pub found : Dict.lookup (token_key token) sm.sessions ≡ some sess
  pub paired : sess.dialer ≡ some dialer
  pub lives : is_past now sess.session_expiry ≡ false

-- A join that offers the token of a live pair after the token's lifetime is refused, and it drops
-- the pair: neither of its two ends has a recipient any more, though the pair's own lifetime runs.
pub join_drops_live_pair :
    (sm : SessionManager) (token : Bytes) (now : ℕ) (sess : Session) (dialer intruder : Channel)
    → IsLive sm token now sess dialer
    → sess.expiry < now
    → let (sm', r) = join sm token now intruder in
      (r ≡ err session_expired)
      × (recipient sm' token sess.listener ≡ err token_not_found)
      × (recipient sm' token dialer ≡ err token_not_found)
join_drops_live_pair sm token now sess dialer intruder v h =
    rw dropped
      (refl, unfold recipient in rw (gone, recipient), unfold recipient in rw (gone, recipient))
  where
    dropped :
        join sm token now intruder
        ≡ (record sm { sessions = Dict.delete (token_key token) sm.sessions }, err session_expired)
    dropped = unfold join in rw (v.found, join_found) (rw (lt→ltb sess.expiry now h))

    gone : Dict.lookup (token_key token) (Dict.delete (token_key token) sm.sessions) ≡ none
    gone =
        Dict.lookup-delete (token_key token) (token_key token) sm.sessions
        ∙ rw (bytes_equal_refl (token_key token))

-- Every channel of an entry that the purge drops is closed.
closed_by-found :
    (now : ℕ) (k : Bytes) (m : Dict Session) (sess : Session) (ch : Channel)
    → Dict.lookup k m ≡ some sess
    → is_expired now sess ≡ true
    → Mem ch (ends sess)
    → Mem ch (closed_by now m)
unfolding closed_by Dict.lookup
closed_by-found now k [] sess ch f x h = cc
closed_by-found now k ((j, s) ∷ m) sess ch f x h = elim (Bool-cases (bytes_equal j k)) [
  | inl e ↦
      let same : s ≡ sess = ground arith in rw same (rw x (mem-append_left (closed_by now m) h))
  | inr e ↦ elim (Bool-cases (is_expired now s)) [
    | inl q ↦ rw q (mem-append_right (ends s) (closed_by-found now k m sess ch (rw e at f) x h))
    | inr q ↦ rw q (closed_by-found now k m sess ch (rw e at f) x h)
  ]
]

-- An entry behind the head is still found: its key is not the head's.
lookup_behind :
    (j k : Bytes) (s sess : Session) (m : Dict Session)
    → Dict.IsAbsent j m
    → Dict.lookup k m ≡ some sess
    → Dict.lookup k ((j, s) ∷ m) ≡ some sess
unfolding Dict.lookup
lookup_behind j k s sess m a f = elim (Bool-cases (bytes_equal j k)) [
  | inl e ↦ absurd (cc (Dict.lookup_absent j m a, eq_of_bytes_equal j k e))
  | inr e ↦ rw e f
]

-- An end of a session that the purge takes for expired.
abbrev Closed : ℕ → Dict Session → Channel → Type 0
Closed now m ch =
    (k : Bytes) × (sess : Session) × (Dict.lookup k m ≡ some sess)
    × (is_expired now sess ≡ true)
    × Mem ch (ends sess)

closed_by-Closed :
    (now : ℕ) (m : Dict Session) (ch : Channel)
    → Dict.IsUnique m
    → Mem ch (closed_by now m)
    → ∥ Closed now m ch ∥₁
unfolding closed_by
closed_by-Closed now [] ch u h = absurd (not-mem-nil h)
closed_by-Closed now ((j, s) ∷ m) ch u h = elim (Bool-cases (is_expired now s)) [
  | inl x ↦
      Or.elim squash₁ (mem-append.0 (rw x at h)) (λ p. ∣ first x p ∣₁)
        (λ q. ∥∥₁_map (closed_by-Closed now m ch u.1 q) behind)
  | inr x ↦ ∥∥₁_map (closed_by-Closed now m ch u.1 (rw x at h)) behind
]
  where
    first : is_expired now s ≡ true → Mem ch (ends s) → Closed now ((j, s) ∷ m) ch
    first x p = (j, s, unfold Dict.lookup in rw (bytes_equal_refl j), x, p)

    behind : Closed now m ch → Closed now ((j, s) ∷ m) ch
    behind (k, sess, f, x, p) = (k, sess, lookup_behind j k s sess m u.0 f, x, p)

-- A waiting session whose token has expired, or a paired one that has a deadline of its own, which has
-- passed.
abbrev pub IsOver : ℕ → Session → Type 0
IsOver now sess =
    ((sess.dialer ≡ none) × (sess.expiry < now))
    ⊎ ((dialer : Channel) × (deadline : ℕ) × (sess.dialer ≡ some dialer)
        × (sess.session_expiry ≡ some deadline)
        × (deadline < now))

abbrev pub IsEnd : Session → Channel → Type 0
IsEnd sess ch = (ch ≡ sess.listener) ⊎ (sess.dialer ≡ some ch)

-- A session of the manager is over, and the channel is an end of it.
abbrev pub Dropped : ℕ → Dict Session → Channel → Type 0
Dropped now m ch =
    (k : Bytes) × (sess : Session) × (Dict.lookup k m ≡ some sess) × IsOver now sess × IsEnd sess ch

is_expired-IsOver : (now : ℕ) (sess : Session) → is_expired now sess ≡ true → IsOver now sess
unfolding is_expired
is_expired-IsOver now sess h = elim (Option-cases sess.dialer) [
  | inl d ↦ let late = rw d at h in inl (d, ltb→lt _ _ late)
  | inr (dialer, d) ↦ elim (Option-cases sess.session_expiry) [
    | inl e ↦ let late = rw (d, e) at h in absurd cc
    | inr (deadline, e) ↦ let late = rw (d, e) at h in inr (dialer, deadline, d, e, ltb→lt _ _ late)
  ]
]

is_expired_of_IsOver : (now : ℕ) (sess : Session) → IsOver now sess → is_expired now sess ≡ true
unfolding is_expired
is_expired_of_IsOver now sess (inl (d, h)) = rw d (lt→ltb sess.expiry now h)
is_expired_of_IsOver now sess (inr (dialer, deadline, d, e, h)) = rw (d, e) (lt→ltb deadline now h)

ends-IsEnd : (sess : Session) (ch : Channel) → Mem ch (ends sess) → ∥ IsEnd sess ch ∥₁
ends-IsEnd sess ch h = elim (Option-cases sess.dialer) [
  | inl d ↦ Or.elim squash₁ (mem-cons.0 (rw d at h)) (λ p. ∣ inl p ∣₁) (λ q. absurd (not-mem-nil q))
  | inr (dialer, d) ↦
      Or.elim squash₁ (mem-cons.0 (rw d at h)) (λ p. ∣ inl p ∣₁)
        (λ q.
          Or.elim squash₁ (mem-cons.0 q) (λ p. ∣ inr (d ∙ ap some (sym p)) ∣₁)
            (λ z. absurd (not-mem-nil z)))
]

ends_of_IsEnd : (sess : Session) (ch : Channel) → IsEnd sess ch → Mem ch (ends sess)
ends_of_IsEnd sess ch (inl p) = elim (Option-cases sess.dialer) [
  | inl d ↦ rw (d, p) mem-cons_self
  | inr (dialer, d) ↦ rw (d, p) mem-cons_self
]
ends_of_IsEnd sess ch (inr d) = rw d (mem-cons_of_mem _ mem-cons_self)

closed_by-purged :
    (sm : SessionManager) (now : ℕ) (ch : Channel)
    → Dict.IsUnique sm.sessions
    → Mem ch (purge_expired now sm).1 ↔ ∥ Dropped now sm.sessions ch ∥₁
unfolding purge_expired
closed_by-purged sm now ch u = (
  λ h. ∥∥₁_elim (closed_by-Closed now sm.sessions ch u h) squash₁ (λ (k, sess, f, x, p).
      ∥∥₁_map (ends-IsEnd sess ch p) (λ q. (k, sess, f, is_expired-IsOver now sess x, q))),
  λ t. ∥∥₁_elim t Mem-prop (λ (k, sess, f, x, p).
      closed_by-found now k sm.sessions sess ch f (is_expired_of_IsOver now sess x)
        (ends_of_IsEnd sess ch p)),
)

-- A purge drops a session exactly if it is over: a waiting one once its token has expired, and a paired
-- one, however long ago its token expired, once its own deadline has passed, if it has one. All others
-- stay as they are. It closes exactly the listeners and the dialers of the sessions that are over.
pub purge_expired_exact :
    (sm : SessionManager) (token : Bytes) (now : ℕ) (sess : Session) (ch : Channel)
    → Dict.IsUnique sm.sessions
    → Dict.lookup (token_key token) sm.sessions ≡ some sess
    → let left = Dict.lookup (token_key token) (purge_expired now sm).0.sessions in
      ((IsOver now sess × (left ≡ none)) ⊎ (¬ IsOver now sess × (left ≡ some sess)))
      × (Mem ch (purge_expired now sm).1 ↔ ∥ Dropped now sm.sessions ch ∥₁)
unfolding purge_expired
purge_expired_exact sm token now sess ch u f =
    let kept = Dict.lookup-retain (λ s. not (is_expired now s)) (token_key token) sm.sessions u in
    (
      elim (Bool-cases (is_expired now sess)) [
        | inl h ↦ inl (is_expired-IsOver now sess h, kept ∙ rw f (rw h refl))
        | inr h ↦
            inr ((λ o. let h' = is_expired_of_IsOver now sess o in cc), kept ∙ rw f (rw h refl))
      ],
      closed_by-purged sm now ch u,
    )
