-- ===== src/Cafe/Chat/Windows.antt =====
-- How many messages of a socket pass in a window of time, in apps/api/src/cafe.rs.
use wfchat.Base.{
  ℕ, ◌+◌, ◌-◌, ◌≤◌, ◌≡◌, refl, List, [], ◌∷◌, ◌++◌, length, ltb, leb, if◌then◌else◌, All, arith,
  Bool-cases, inl, inr, length-append,
}
use wfchat.Cafe.Chat.{drop_before, accept_within}

-- How many of the times are at most a window before `now`.
abbrev pub within : ℕ → ℕ → List ℕ → ℕ
within window now [] = 0
within window now (t ∷ ts) = (if leb (now - t) window then 1 else 0) + within window now ts

-- The times, of those at which a message comes in, at which it is accepted.
unfoldable pub accepted : ℕ → ℕ → List ℕ → List ℕ → List ℕ
unfolding accept_within
accepted limit window [] recent = []
accepted limit window (now ∷ nows) recent =
    let (recent', passes) = accept_within limit window now recent in
    let rest = accepted limit window nows recent' in if passes then now ∷ rest else rest

within-append :
    (window now : ℕ) (xs ys : List ℕ)
    → within window now (xs ++ ys) ≡ within window now xs + within window now ys
within-append window now [] ys = omega arith
within-append window now (x ∷ xs) ys = ground (arith, within-append window now xs ys)

within_le : (window now : ℕ) (xs : List ℕ) → within window now xs ≤ length xs
within_le window now [] = omega arith
within_le window now (x ∷ xs) = ground (arith, within_le window now xs)

-- What is dropped is out of the window for good.
within-drop_before :
    (window now later : ℕ) (xs : List ℕ)
    → now ≤ later
    → within window later (drop_before window now xs) ≡ within window later xs
unfolding drop_before
within-drop_before window now later [] h = refl
within-drop_before window now later (x ∷ xs) h =
    ground (arith, within-drop_before window now later xs h)

length-drop_before : (window now : ℕ) (xs : List ℕ) → length (drop_before window now xs) ≤ length xs
unfolding drop_before
length-drop_before window now [] = omega arith
length-drop_before window now (x ∷ xs) = ground (arith, length-drop_before window now xs)

-- From a queue that is not too long, no more than `limit` messages pass in the window that ends at
-- `later`, those in the queue included, whatever the times are at which they come in.
pub accepted-le-limit_within :
    (limit window later : ℕ) (nows recent : List ℕ)
    → All (λ now. now ≤ later) nows
    → length recent ≤ limit
    → within window later recent + within window later (accepted limit window nows recent) ≤ limit
unfolding accepted accept_within
accepted-le-limit_within limit window later [] recent h le =
    omega (arith, within_le window later recent)
accepted-le-limit_within limit window later (now ∷ nows) recent h le =
    elim (Bool-cases (leb limit (length (drop_before window now recent)))) [
      | inl full ↦ rw full (
          ground (
            arith,
            accepted-le-limit_within limit window later nows (drop_before window now recent) h.1
                (omega (arith, le, length-drop_before window now recent)),
            within-drop_before window now later recent h.0,
          ))
      | inr room ↦ rw room (
          ground (
            arith,
            accepted-le-limit_within limit window later nows
                (drop_before window now recent ++ now ∷ []) h.1
                (ground (arith, length-append (drop_before window now recent) (now ∷ []))),
            within-append window later (drop_before window now recent) (now ∷ []),
            within-drop_before window now later recent h.0,
          ))
    ]

-- Times in the order in which they came.
abbrev pub IsAscending : List ℕ → Type 0
IsAscending [] = Unit
IsAscending (t ∷ ts) = All (λ u. t ≤ u) ts × IsAscending ts

within_later :
    (window now t : ℕ) (ts : List ℕ)
    → now - t ≤ window
    → All (λ u. t ≤ u) ts
    → within window now ts ≡ length ts
within_later window now t [] h later = refl
within_later window now t (u ∷ us) h later = ground (arith, within_later window now t us h later.1)

length-kept :
    (window now : ℕ) (ts : List ℕ)
    → IsAscending ts
    → length (drop_before window now ts) ≡ within window now ts
unfolding drop_before
length-kept window now [] v = refl
length-kept window now (t ∷ ts) v = elim (Bool-cases (ltb window (now - t))) [
  | inl old ↦ ground (arith, length-kept window now ts v.1)
  | inr kept ↦ ground (arith, within_later window now t ts (ground arith) v.0)
]

-- A message passes exactly if fewer than `limit` of those in the queue are in the window that ends
-- with it. (The queue is in the order of its times.)
pub accept_within_lem :
    (limit window now : ℕ) (recent : List ℕ)
    → IsAscending recent
    → (accept_within limit window now recent).1 ≡ ltb (within window now recent) limit
unfolding accept_within
accept_within_lem limit window now recent v = ground (arith, length-kept window now recent v)
