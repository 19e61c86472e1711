-- ===== src/Quota/Counts.antt =====
-- How many rows of a table pass a test.
use wfchat.Base.{
  ℕ, ◌+◌, ◌≤◌, ◌≡◌, refl, Bool, true, false, [], ◌∷◌, none, some, Map, Eq, lookup, insert, modify,
  remove, values, any, arith,
}

abbrev pub one_if : Bool → ℕ
one_if true = 1
one_if false = 0

module _ {ℓ κ} {K : Type ℓ} {V : Type κ} where
  abbrev pub count : (V → Bool) → Map K V → ℕ
  count p [] = 0
  count p ((k, v) ∷ m) = one_if (p v) + count p m

  pub count_none : (p : V → Bool) (m : Map K V) → any p (values m) ≡ false → count p m ≡ 0
  count_none p [] h = refl
  count_none p ((k, v) ∷ m) h = ground (arith, count_none p m)

  pub count_weaker :
      (p q : V → Bool) (m : Map K V) → ((v : V) → p v ≡ true → q v ≡ true) → count p m ≤ count q m
  count_weaker p q [] h = omega arith
  count_weaker p q ((k, v) ∷ m) h = ground (arith, h v, count_weaker p q m h)

module _ {ℓ κ} {K : Type ℓ} {V : Type κ} ⦃e : Eq K⦄ where
  pub count-insert :
      (p : V → Bool) (k : K) (v : V) (m : Map K V)
      → lookup k m ≡ none
      → count p (insert k v m) ≡ one_if (p v) + count p m
  unfolding lookup insert
  count-insert p k v [] h = omega arith
  count-insert p k v ((j, w) ∷ m) h = ground (arith, count-insert p k v m)

  pub count-modify :
      (p : V → Bool) (k : K) (f : V → V) (v : V) (m : Map K V)
      → lookup k m ≡ some v
      → count p (modify k f m) + one_if (p v) ≡ count p m + one_if (p (f v))
  unfolding lookup modify
  count-modify p k f v [] h = cc
  count-modify p k f v ((j, w) ∷ m) h = ground (arith, count-modify p k f v m)

  pub count-remove-le : (p : V → Bool) (k : K) (m : Map K V) → count p (remove k m) ≤ count p m
  unfolding remove
  count-remove-le p k [] = omega arith
  count-remove-le p k ((j, w) ∷ m) = ground (arith, count-remove-le p k m)
