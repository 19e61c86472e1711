-- ===== src/RateLimit/Generation/Invariant.antt =====
-- The limiter's counts are those of the permits that are held.
use wfchat.Base.{
  ℕ, ◌+◌, ◌-◌, ◌≤◌, ◌≡◌, refl, Bool, true, false, List, [], ◌∷◌, Option, none, some, Map, lookup,
  lookup-insert, lookup-remove, leb, nat_beq, nat_eq, if◌then◌else◌, find, arith,
}
use wfchat.Errors.{
  AppResult, ok, err, generation_process_capacity, generation_session_capacity,
  chat_generation_active,
}
use wfchat.RateLimit.Generation.{
  Limiter, GenerationPermit, new, generation_limit_error, or_zero, contains, without, try_acquire,
  try_acquire_clear, release_session, drop_permit,
}

abbrev pub is_of : ℕ → Option ℕ → Bool
is_of s none = false
is_of s (some t) = nat_beq t s

abbrev pub one_if : Bool → ℕ
one_if true = 1
one_if false = 0

-- How many of the permits are the session's, and how many hold a permit of the semaphore.
abbrev pub permits_of : ℕ → List GenerationPermit → ℕ
permits_of s [] = 0
permits_of s (p ∷ ps) = one_if (is_of s p.session_id) + permits_of s ps

abbrev pub globals : List GenerationPermit → ℕ
globals [] = 0
globals (p ∷ ps) = one_if p.holds_global + globals ps

abbrev pub holds_chat : ℕ → List GenerationPermit → Bool
holds_chat c [] = false
holds_chat c (p ∷ ps) = if nat_beq p.chat_id c then true else holds_chat c ps

abbrev pub HasUniqueChats : List GenerationPermit → Type 0
HasUniqueChats [] = Unit
HasUniqueChats (p ∷ ps) = (holds_chat p.chat_id ps ≡ false) × HasUniqueChats ps

pub record Inv (max_global max_per_session : ℕ) (limiter : Limiter)
    (permits : List GenerationPermit) : Type 0 where
  pub per_session : (s : ℕ) → or_zero (lookup s limiter.sessions) ≡ permits_of s permits
  pub limit : limiter.max_per_session ≡ max_per_session
  pub within_session : (s : ℕ) → permits_of s permits ≤ max_per_session
  pub total : limiter.global + globals permits ≡ max_global
  pub chats : (c : ℕ) → contains c limiter.chats ≡ holds_chat c permits
  pub unique : HasUniqueChats permits

-- The permits after a call: one that succeeds adds its own.
abbrev pub granted : AppResult GenerationPermit → List GenerationPermit → List GenerationPermit
granted (ok permit) permits = permit ∷ permits
granted (err e) permits = permits

abbrev pub give_up : ℕ → List GenerationPermit → List GenerationPermit
give_up c [] = []
give_up c (p ∷ ps) = if nat_beq p.chat_id c then ps else p ∷ give_up c ps

pub new-Inv :
    (max_global max_per_session : ℕ)
    → Inv max_global max_per_session (new max_global max_per_session) []
unfolding new lookup
new-Inv max_global max_per_session = record {
  per_session = λ s. refl;
  limit = refl;
  within_session = λ s. omega arith;
  total = omega arith;
  chats = λ c. refl;
  unique = tt;
}

module _ (n m : ℕ) (limiter : Limiter) (permits : List GenerationPermit)
    (v : Inv n m limiter permits) where
  -- A call of `try_acquire` is refused for a chat that has a permit, for a session that has as many
  -- as it may, and where all are given out; else it succeeds.
  pub try_acquire_lem :
      (session_id chat_id : ℕ)
      → (try_acquire session_id chat_id limiter).1 ≡ (
          if holds_chat chat_id permits
          then err (generation_limit_error chat_generation_active)
          else if leb m (permits_of session_id permits)
          then err (generation_limit_error generation_session_capacity)
          else if nat_beq (globals permits) n
          then err (generation_limit_error generation_process_capacity)
          else ok (record { session_id = some session_id; chat_id = chat_id; holds_global = true }))
  unfolding try_acquire
  try_acquire_lem session_id chat_id =
      ground (arith, v.chats chat_id, v.per_session session_id, v.total, v.limit)

  pub try_acquire-Inv :
      (session_id chat_id : ℕ)
      → let (limiter', outcome) = try_acquire session_id chat_id limiter in
        Inv n m limiter' (granted outcome permits)
  unfolding try_acquire
  try_acquire-Inv session_id chat_id = record {
    per_session = λ s. ground (
      arith,
      v.per_session s,
      v.per_session session_id,
      lookup-insert session_id s (or_zero (lookup session_id limiter.sessions) + 1)
          limiter.sessions,
    );
    limit = ground (arith, v.limit);
    within_session =
        λ s. ground (arith, v.within_session s, v.per_session s, v.per_session session_id, v.limit);
    total = ground (arith, v.total);
    chats = λ c. ground (arith, v.chats c);
    unique = ground (arith, v.unique, v.chats chat_id);
  }

  pub try_acquire_clear-Inv :
      (chat_id : ℕ)
      → let (limiter', outcome) = try_acquire_clear chat_id limiter in
        Inv n m limiter' (granted outcome permits)
  unfolding try_acquire_clear
  try_acquire_clear-Inv chat_id = record {
    per_session = λ s. ground (arith, v.per_session s);
    limit = ground (arith, v.limit);
    within_session = λ s. ground (arith, v.within_session s);
    total = ground (arith, v.total);
    chats = λ c. ground (arith, v.chats c);
    unique = ground (arith, v.unique, v.chats chat_id);
  }

contains-without :
    (c d : ℕ) (ids : List ℕ)
    → contains d (without c ids) ≡ (if nat_beq c d then false else contains d ids)
contains-without c d [] = ground arith
contains-without c d (x ∷ xs) = ground (arith, contains-without c d xs)

abbrev pub permit_for : ℕ → List GenerationPermit → Option GenerationPermit
permit_for c permits = find (λ p. nat_beq p.chat_id c) permits

permits_of-give_up :
    (s c : ℕ) (ps : List GenerationPermit) (p : GenerationPermit)
    → permit_for c ps ≡ some p
    → permits_of s (give_up c ps) + one_if (is_of s p.session_id) ≡ permits_of s ps
permits_of-give_up s c [] p h = cc
permits_of-give_up s c (q ∷ ps) p h = ground (arith, permits_of-give_up s c ps p)

globals-give_up :
    (c : ℕ) (ps : List GenerationPermit) (p : GenerationPermit)
    → permit_for c ps ≡ some p
    → globals (give_up c ps) + one_if p.holds_global ≡ globals ps
globals-give_up c [] p h = cc
globals-give_up c (q ∷ ps) p h = ground (arith, globals-give_up c ps p)

holds_chat-give_up :
    (c d : ℕ) (ps : List GenerationPermit)
    → HasUniqueChats ps
    → holds_chat d (give_up c ps) ≡ (if nat_beq c d then false else holds_chat d ps)
holds_chat-give_up c d [] u = ground arith
holds_chat-give_up c d (q ∷ ps) u = ground (arith, holds_chat-give_up c d ps u.1)

give_up-HasUniqueChats :
    (c : ℕ) (ps : List GenerationPermit) → HasUniqueChats ps → HasUniqueChats (give_up c ps)
give_up-HasUniqueChats c [] u = tt
give_up-HasUniqueChats c (q ∷ ps) u =
    ground (arith, give_up-HasUniqueChats c ps u.1, holds_chat-give_up c q.chat_id ps u.1)

chat-permit_for :
    (c : ℕ) (ps : List GenerationPermit) (p : GenerationPermit)
    → permit_for c ps ≡ some p
    → p.chat_id ≡ c
chat-permit_for c [] p h = cc
chat-permit_for c (q ∷ ps) p h = ground (arith, chat-permit_for c ps p)

-- What a release does to the count of a session.
or_zero-release_session :
    (o : Option ℕ) (s : ℕ) (sessions : Map ℕ ℕ)
    → or_zero (lookup s (release_session o sessions))
      ≡ or_zero (lookup s sessions) - one_if (is_of s o)
or_zero-release_session none s sessions = ground arith
or_zero-release_session (some t) s sessions = ground (
  arith,
  lookup-remove t s sessions,
  lookup-insert t s (or_zero (lookup t sessions) - 1) sessions,
)

pub drop_permit-Inv :
    (n m : ℕ) (limiter : Limiter) (permits : List GenerationPermit) (c : ℕ) (p : GenerationPermit)
    → Inv n m limiter permits
    → permit_for c permits ≡ some p
    → Inv n m (drop_permit p limiter) (give_up c permits)
unfolding drop_permit
drop_permit-Inv n m limiter permits c p v e = record {
  per_session = λ s. ground (
    arith,
    v.per_session s,
    or_zero-release_session p.session_id s limiter.sessions,
    permits_of-give_up s c permits p e,
  );
  limit = v.limit;
  within_session = λ s. ground (arith, v.within_session s, permits_of-give_up s c permits p e);
  total = ground (arith, v.total, globals-give_up c permits p e);
  chats = λ d. ground (
    arith,
    v.chats d,
    chat-permit_for c permits p e,
    contains-without p.chat_id d limiter.chats,
    holds_chat-give_up c d permits v.unique,
  );
  unique = give_up-HasUniqueChats c permits v.unique;
}
