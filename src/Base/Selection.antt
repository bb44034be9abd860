-- ===== src/Base/Selection.antt =====
-- Rows with a numeric key, and which keys a selection of them has: where the keys of all rows are
-- distinct, a row that does not fit has no key of a row that does.
use Prim.Native.Nat.{ℕ, ◌+◌, ◌≤◌}
use mathlib.Core.Path.{◌≡◌, refl}
use mathlib.Core.Logic.{◌⊎◌, inl, inr}
use mathlib.Core.Bool.{Bool, true, not, ◌&&◌}
use mathlib.Core.List.{List, [], ◌∷◌, ◌++◌}
use native.Mathlib.Omega.{arith}
use rust_ia_micro_agents.Base.Tests.{if◌then◌else◌, ◌==◌, Bool-cases}
use rust_ia_micro_agents.Base.Lists.{count, filter, All}

-- How often the number stands in the list.
abbrev pub occurrences : ℕ → List ℕ → ℕ
occurrences i is = count (λ k. k == i) is

pub occurrences-snoc :
    (i d : ℕ) (is : List ℕ)
    → occurrences i (is ++ d ∷ []) ≡ occurrences i is + (if d == i then 1 else 0)
occurrences-snoc i d [] = ground arith
occurrences-snoc i d (k ∷ ks) = ground (arith, occurrences-snoc i d ks)

module _ {A : Type 0} (key : A → ℕ) where
  abbrev pub has_key : ℕ → A → Bool
  has_key i x = key x == i

  pub count-snoc :
      (i : ℕ) (xs : List A) (x : A)
      → count (has_key i) (xs ++ x ∷ []) ≡ count (has_key i) xs + (if has_key i x then 1 else 0)
  count-snoc i [] x = ground arith
  count-snoc i (y ∷ ys) x = ground (arith, count-snoc i ys x)

  module _ (p : A → Bool) where
    -- How many rows of a key do not fit.
    abbrev left_out : List A → ℕ → ℕ
    left_out xs i = count (λ y. has_key i y && not (p y)) xs

    abbrev IsCounted : List A → A → Type 0
    IsCounted xs x = (p x ≡ true) ⊎ (1 ≤ left_out xs (key x))

    IsCounted-behind :
        (x : A) (rest ys : List A) → All (IsCounted rest) ys → All (IsCounted (x ∷ rest)) ys
    IsCounted-behind x rest [] h = tt
    IsCounted-behind x rest (y ∷ ys) h = (ground (arith, h.0), IsCounted-behind x rest ys h.1)

    counted : (xs : List A) → All (IsCounted xs) xs
    counted [] = tt
    counted (x ∷ xs) = (
      elim (Bool-cases (p x)) [ inl e ↦ inl e | inr e ↦ inr (ground arith) ],
      IsCounted-behind x xs xs (counted xs),
    )

    count_split :
        (i : ℕ) (xs : List A)
        → count (has_key i) xs ≡ count (has_key i) (filter p xs) + left_out xs i
    count_split i [] = refl
    count_split i (x ∷ xs) = ground (arith, count_split i xs)

    module _ (keys : List ℕ) (xs : List A) (distinct : (i : ℕ) → count (has_key i) xs ≤ 1)
        (within : (i : ℕ) → occurrences i keys ≤ count (has_key i) (filter p xs)) where
      listed_from :
          (ys : List A)
          → All (IsCounted xs) ys
          → All (λ y. (occurrences (key y) keys ≡ 0) ⊎ (p y ≡ true)) ys
      listed_from [] h = tt
      listed_from (y ∷ ys) h = (
        elim h.0 [
          | inl e ↦ inr e
          | inr n ↦ inl (omega (arith, distinct (key y), count_split (key y) xs, within (key y)))
        ],
        listed_from ys h.1,
      )

      -- No row that does not fit has one of the keys.
      pub All_listed : All (λ y. (occurrences (key y) keys ≡ 0) ⊎ (p y ≡ true)) xs
      All_listed = listed_from xs (counted xs)
