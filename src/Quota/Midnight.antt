-- ===== src/Quota/Midnight.antt =====
-- apps/api/src/store/quota.rs: when the next day begins.
use wfchat.Base.{ℕ, ◌+◌, ◌*◌, ◌≤◌, ◌<◌, ◌≡◌, arith}
use wfchat.Quota.{bangkok_quota_date, retry_after_bangkok_midnight, second}

-- The number of seconds that a refused client is told is between 1 and those of a day, and is the first
-- after which the quotas of the next day are in force. (The clock is after 1970.)
pub retry_after_bangkok_midnight_lem :
    (now : ℕ)
    → let today = bangkok_quota_date now in
      let seconds = retry_after_bangkok_midnight now today in
      (1 ≤ seconds)
      × (seconds ≤ 86_400)
      × (bangkok_quota_date (now + seconds * second) ≡ today + 1)
      × ((n : ℕ) → n < seconds → bangkok_quota_date (now + n * second) ≡ today)
unfolding bangkok_quota_date retry_after_bangkok_midnight
retry_after_bangkok_midnight_lem now =
    (ground arith, ground arith, ground arith, λ n lt. ground arith)
