-- ===== src/Tests/RateLimits.antt =====
-- apps/api/src/rate_limit.rs at concrete inputs.
use wfchat.Base.{
  ◌+◌, ◌-◌, leb, ◌≤◌, ◌≡◌, refl, Bool, true, false, List, [], ◌∷◌, ◌++◌, Option, none, some, Text,
  codes, nat_eq, lookup, modify, insert, if◌then◌else◌, arith, nat_beq, ◌⊎◌, all, any, ◌&&◌, ◌==◌,
  split, trim_start, is_whitespace, trim,
}
use wfchat.Errors.{
  chat_generation_active, generation_session_capacity, generation_process_capacity, ok, err,
  rate_limited, into_response, database, ai, into_response_discloses,
}
use wfchat.RateLimit.Policy.{
  RateLimitKey, guest_sessions, ip, global, default_policies, policy_for, key_eq, RateLimitIdentity,
}
use wfchat.RateLimit.Buckets.{check_many, keys_of, check_keys, count_keys, retain_active, refresh}
use wfchat.RateLimit.Buckets.Usage.{HasPerMinute, usage, has_room}
use wfchat.RateLimit.Buckets.Window.{HasU32Limits, check_many_lem}
use wfchat.RateLimit.Buckets.Runs.{Request, admitted, admitted-le-limit}
use wfchat.RateLimit.ClientIp.{
  IpAddr, v4, v6, is_trusted_ip, client_ip_from_request, parse_entries, normalize_ip,
}
use wfchat.RateLimit.ClientIp.Proofs.{
  trusted, IsForwarded, client_ip_from_request-IsForwarded, client_ip_from_request_forged,
}
use wfchat.RateLimit.Generation.{try_acquire, generation_limit_error}
use wfchat.RateLimit.Generation.Invariant.{try_acquire_lem, Inv, permits_of, holds_chat, globals}
use wfchat.RateLimit.Generation.Runs.{run, initial, acquires, clears, drops, run-initial-Inv}

default-HasPerMinute : HasPerMinute default_policies
unfolding default_policies policy_for
default-HasPerMinute key = ground arith

default-HasU32Limits : HasU32Limits default_policies
unfolding default_policies policy_for
default-HasU32Limits key = ground arith

abbrev guest : List RateLimitIdentity
guest = ip (codes "a") ∷ global ∷ []

abbrev guest_key : RateLimitKey
guest_key = record { family = guest_sessions; identity = ip (codes "a") }

guest_counted : usage 7 guest_key (check_many default_policies 7 guest_sessions guest []).0 ≡ 1
unfolding check_many default_policies policy_for check_keys count_keys retain_active refresh lookup
    insert modify
guest_counted = refl

check_many_lem_example :
    let keys = keys_of guest_sessions guest in
    let room = all (has_room default_policies 7 []) keys in
    let (buckets', outcome) = check_many default_policies 7 guest_sessions guest [] in
    (outcome ≡ (if room then ok tt else err rate_limited))
    × ((j : RateLimitKey)
        → usage 7 j buckets' ≡ usage 7 j [] + (if room && any (λ k. k == j) keys then 1 else 0))
check_many_lem_example =
    check_many_lem default_policies 7 guest_sessions guest [] default-HasPerMinute
      default-HasU32Limits tt (refl, (refl, tt))

abbrev two_calls : List Request
two_calls =
    record { now = 7; family = guest_sessions; identities = guest }
    ∷ record { now = 5; family = guest_sessions; identities = guest }
    ∷ []

admitted-le-limit_example :
    0 + admitted default_policies guest_key two_calls []
    ≤ (policy_for default_policies guest_key).max_requests
unfolding lookup
admitted-le-limit_example =
    admitted-le-limit default_policies guest_key 5 two_calls [] default-HasPerMinute
      default-HasU32Limits tt
      (
        (omega arith, omega arith, (refl, (refl, tt))),
        ((omega arith, omega arith, (refl, (refl, tt))), tt),
      )
      tt (omega arith)

-- One network, which holds the addresses below 10; a text of one digit reads as an address.
abbrev small : Unit {0} → IpAddr → Bool
small n (v4 a) = leb a 9
small n (v6 a) = false

abbrev read_digit : Text → Option IpAddr
read_digit [] = none
read_digit (c ∷ s) = some (v4 (c - 40))

abbrev ours : List (Unit {0})
ours = tt ∷ []

client_ip_from_request-IsForwarded_example :
    let r = client_ip_from_request small read_digit (some (codes "9,3") ∷ []) (v4 2) true ours in
    (r ≡ normalize_ip (v4 2))
    ⊎ (◌≡◌ {A = Bool} true true
        × (trusted small read_digit ours (normalize_ip (v4 2)) ≡ true)
        × IsForwarded small read_digit ours (some (codes "9,3") ∷ []) r)
client_ip_from_request-IsForwarded_example =
    client_ip_from_request-IsForwarded small read_digit ours (some (codes "9,3") ∷ []) (v4 2) true

client_ip_from_request_forged_example :
    client_ip_from_request small read_digit
      (some (codes "8" ++ b',' ∷ codes "7") ∷ [])
      (v4 2)
      true
      ours
    ≡ client_ip_from_request small read_digit (some (codes "7") ∷ []) (v4 2) true ours
unfolding parse_entries split trim trim_start is_whitespace normalize_ip is_trusted_ip
client_ip_from_request_forged_example =
    client_ip_from_request_forged small read_digit ours (codes "8") (codes "7") (v4 16 ∷ [])
      (v4 15 ∷ []) (v4 2) true refl refl refl refl

try_acquire_lem_example : (try_acquire 1 5 (run (initial 2 1) []).limiter).1 ≡ (
    if holds_chat 5 (run (initial 2 1) []).permits
    then err (generation_limit_error chat_generation_active)
    else if leb 1 (permits_of 1 (run (initial 2 1) []).permits)
    then err (generation_limit_error generation_session_capacity)
    else if nat_beq (globals (run (initial 2 1) []).permits) 2
    then err (generation_limit_error generation_process_capacity)
    else ok (record { session_id = some 1; chat_id = 5; holds_global = true }))
try_acquire_lem_example =
    try_acquire_lem 2 1 (run (initial 2 1) []).limiter (run (initial 2 1) []).permits
      (run-initial-Inv 2 1 []) 1 5

run-initial-Inv_example :
    let w = run (initial 2 1) (acquires 1 5 ∷ clears 6 ∷ drops 5 ∷ []) in
    Inv 2 1 w.limiter w.permits
run-initial-Inv_example = run-initial-Inv 2 1 (acquires 1 5 ∷ clears 6 ∷ drops 5 ∷ [])

into_response_discloses_example :
    (into_response (ai (codes "a")) ≡ into_response (ai (codes "b")))
    × (((into_response database).body_retry ≡ none)
        ⊎ ((into_response database).body_retry ≡ (into_response database).retry_after))
into_response_discloses_example = into_response_discloses database (codes "a") (codes "b")
