-- ===== src/Protocol/Conn/Deadline.antt =====
-- The deadline checks of conn.go.
use kamune.Prelude.{ℕ, ◌+◌, ◌≤◌, ◌<◌, ◌≡◌, arith, false, Option, some, ok}
use kamune.Protocol.Conn.{Moment, check_deadline}

-- A deadline that a check leaves has not passed, and is at most the configured time away. A later
-- check keeps it as it is until it has passed, so traffic does not extend it.
pub check_deadline_bounds :
    (deadline : ℕ) (current : Option ℕ) (m later : Moment) (d : ℕ)
    → check_deadline deadline current m ≡ ok (some d)
    → later.closed ≡ false
    → m.now < later.now
    → later.now ≤ d
    → (m.now ≤ d) × (d ≤ m.now + deadline) × (check_deadline deadline (some d) later ≡ ok (some d))
unfolding check_deadline
check_deadline_bounds deadline current m later d h c g l =
    (ground arith, ground arith, ground arith)
