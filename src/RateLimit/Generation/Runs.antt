-- ===== src/RateLimit/Generation/Runs.antt =====
-- Any history of calls of apps/api/src/rate_limit.rs's GenerationLimiter.
use wfchat.Base.{ℕ, List, [], ◌∷◌, Option, none, some, nat_eq, Option-cases, inl, inr}
use wfchat.RateLimit.Generation.{
  Limiter, GenerationPermit, new, try_acquire, try_acquire_clear, drop_permit,
}
use wfchat.RateLimit.Generation.Invariant.{
  Inv, granted, give_up, permit_for, new-Inv, try_acquire-Inv, try_acquire_clear-Inv,
  drop_permit-Inv,
}

-- What callers do: ask for a permit, ask for one to clear a chat, or drop the chat's permit.
pub data Call : Type 0 where
  acquires : ℕ → ℕ → Call
  clears : ℕ → Call
  drops : ℕ → Call

pub record World : Type 0 where
  pub limiter : Limiter
  pub permits : List GenerationPermit

abbrev drop_found : ℕ → World → Option GenerationPermit → World
drop_found c w none = w
drop_found c w (some p) = record {
  limiter = drop_permit p w.limiter;
  permits = give_up c w.permits;
}

unfoldable pub step : World → Call → World
step w (acquires session_id chat_id) =
    let (limiter, outcome) = try_acquire session_id chat_id w.limiter in
    record { limiter = limiter; permits = granted outcome w.permits }
step w (clears chat_id) =
    let (limiter, outcome) = try_acquire_clear chat_id w.limiter in
    record { limiter = limiter; permits = granted outcome w.permits }
step w (drops chat_id) = drop_found chat_id w (permit_for chat_id w.permits)

unfoldable pub run : World → List Call → World
run w [] = w
run w (c ∷ cs) = run (step w c) cs

abbrev pub initial : ℕ → ℕ → World
initial max_global max_per_session = record {
  limiter = new max_global max_per_session;
  permits = [];
}

abbrev IsConsistent : ℕ → ℕ → World → Type 0
IsConsistent n m w = Inv n m w.limiter w.permits

step-Inv : (n m : ℕ) (w : World) (c : Call) → IsConsistent n m w → IsConsistent n m (step w c)
unfolding step
step-Inv n m w (acquires s c) v = try_acquire-Inv n m w.limiter w.permits v s c
step-Inv n m w (clears c) v = try_acquire_clear-Inv n m w.limiter w.permits v c
step-Inv n m w (drops c) v = elim (Option-cases (permit_for c w.permits)) [
  | inl e ↦ rw (e, drop_found) v
  | inr (p, e) ↦ rw (e, drop_found) (drop_permit-Inv n m w.limiter w.permits c p v e)
]

run-Inv : (n m : ℕ) (w : World) (cs : List Call) → IsConsistent n m w → IsConsistent n m (run w cs)
unfolding run
run-Inv n m w [] v = v
run-Inv n m w (c ∷ cs) v = run-Inv n m (step w c) cs (step-Inv n m w c v)

-- After any history of calls the counts of the limiter are those of the permits held: no two are
-- for one chat, no session has more than its limit, and no more than `max_global` of the permits
-- that count there are out.
pub run-initial-Inv :
    (max_global max_per_session : ℕ) (cs : List Call)
    → let w = run (initial max_global max_per_session) cs in
      Inv max_global max_per_session w.limiter w.permits
run-initial-Inv max_global max_per_session cs =
    run-Inv max_global max_per_session (initial max_global max_per_session) cs
      (new-Inv max_global max_per_session)
