-- ===== src/Base/Ranking.antt =====
-- The sort from the largest key to the smallest, and what is left of each key by a limit.
use Prim.Native.Nat.{ℕ, zero, suc, ◌≤◌, ◌<◌, min}
use mathlib.Core.Path.{◌≡◌, refl}
use mathlib.Core.Logic.{inl, inr}
use mathlib.Core.Bool.{Bool}
use mathlib.Core.List.{List, [], ◌∷◌}
use native.Mathlib.Omega.{arith}
use rust_ia_micro_agents.Base.Tests.{if◌then◌else◌, leb, Bool-cases}
use rust_ia_micro_agents.Base.Lists.{count, filter, All, length}
use rust_ia_micro_agents.Base.Rows.{take, All-filter, All-take, count-take-le}

module _ {A : Type 0} (key : A → ℕ) where
  -- The row goes before the first one whose key is not larger, so rows of one key keep their order.
  unfoldable pub insert_descending : A → List A → List A
  insert_descending x [] = x ∷ []
  insert_descending x (y ∷ ys) =
      if leb (key y) (key x) then x ∷ (y ∷ ys) else y ∷ insert_descending x ys

  unfoldable pub sort_descending : List A → List A
  sort_descending [] = []
  sort_descending (x ∷ xs) = insert_descending x (sort_descending xs)

  abbrev reaches : ℕ → A → Bool
  reaches s x = leb s (key x)

  -- No row has a larger key than one before it.
  abbrev pub IsRanked : List A → Type 0
  IsRanked [] = Unit
  IsRanked (x ∷ xs) = All (λ y. key y ≤ key x) xs × IsRanked xs

  All-insert_descending :
      (P : A → Type 0) (x : A) (xs : List A) → P x → All P xs → All P (insert_descending x xs)
  unfolding insert_descending
  All-insert_descending P x [] c h = (c, tt)
  All-insert_descending P x (y ∷ ys) c h = elim (Bool-cases (leb (key y) (key x))) [
    | inl e ↦ rw e (c, h)
    | inr e ↦ rw e (h.0, All-insert_descending P x ys c h.1)
  ]

  All-le : (a b : ℕ) (xs : List A) → a ≤ b → All (λ y. key y ≤ a) xs → All (λ y. key y ≤ b) xs
  All-le a b [] h k = tt
  All-le a b (x ∷ xs) h k = (omega (arith, k.0), All-le a b xs h k.1)

  insert_descending-IsRanked :
      (x : A) (xs : List A) → IsRanked xs → IsRanked (insert_descending x xs)
  unfolding insert_descending
  insert_descending-IsRanked x [] h = (tt, tt)
  insert_descending-IsRanked x (y ∷ ys) h = elim (Bool-cases (leb (key y) (key x))) [
    | inl e ↦ rw e ((ground (arith, e), All-le (key y) (key x) ys (ground (arith, e)) h.0), h)
    | inr e ↦ rw e (
      All-insert_descending (λ z. key z ≤ key y) x ys (ground (arith, e)) h.0,
      insert_descending-IsRanked x ys h.1,
    )
  ]

  pub sort_descending-IsRanked : (xs : List A) → IsRanked (sort_descending xs)
  unfolding sort_descending
  sort_descending-IsRanked [] = tt
  sort_descending-IsRanked (x ∷ xs) =
      insert_descending-IsRanked x (sort_descending xs) (sort_descending-IsRanked xs)

  count-insert_descending :
      (p : A → Bool) (x : A) (xs : List A) → count p (insert_descending x xs) ≡ count p (x ∷ xs)
  unfolding insert_descending
  count-insert_descending p x [] = refl
  count-insert_descending p x (y ∷ ys) = ground (arith, count-insert_descending p x ys)

  pub count-sort_descending :
      (p : A → Bool) (xs : List A) → count p (sort_descending xs) ≡ count p xs
  unfolding sort_descending
  count-sort_descending p [] = refl
  count-sort_descending p (x ∷ xs) =
      ground (arith, count-insert_descending p x (sort_descending xs), count-sort_descending p xs)

  pub filter-IsRanked : (p : A → Bool) (xs : List A) → IsRanked xs → IsRanked (filter p xs)
  filter-IsRanked p [] h = tt
  filter-IsRanked p (x ∷ xs) h = elim (Bool-cases (p x)) [
    | inl e ↦ rw e (All-filter (λ y. key y ≤ key x) p xs h.0, filter-IsRanked p xs h.1)
    | inr e ↦ rw e (filter-IsRanked p xs h.1)
  ]

  pub take-IsRanked : (n : ℕ) (xs : List A) → IsRanked xs → IsRanked (take n xs)
  take-IsRanked zero xs h = tt
  take-IsRanked (suc n) [] h = tt
  take-IsRanked (suc n) (x ∷ xs) h =
      (All-take (λ y. key y ≤ key x) n xs h.0, take-IsRanked n xs h.1)

  count-beyond :
      (s k : ℕ) (xs : List A) → k < s → All (λ y. key y ≤ k) xs → count (reaches s) xs ≡ 0
  count-beyond s k [] h a = refl
  count-beyond s k (x ∷ xs) h a = ground (arith, a.0, count-beyond s k xs h a.1)

  -- A limit on a ranked list leaves as many rows from a key upwards as the limit lets through.
  pub count-take :
      (s n : ℕ) (xs : List A)
      → IsRanked xs
      → count (reaches s) (take n xs) ≡ min n (count (reaches s) xs)
  count-take s zero xs h = omega arith
  count-take s (suc n) [] h = omega arith
  count-take s (suc n) (x ∷ xs) h = elim (Bool-cases (leb s (key x))) [
    | inl e ↦ ground (arith, e, count-take s n xs h.1)
    | inr e ↦ ground (
      arith,
      e,
      count-beyond s (key x) xs (ground (arith, e)) h.0,
      count-take-le (reaches s) n xs,
    )
  ]

  -- Rows without a key that is positive do not count from a positive key upwards.
  pub count-positive :
      (s : ℕ) (xs : List A)
      → 1 ≤ s
      → count (reaches s) (filter (λ x. leb 1 (key x)) xs) ≡ count (reaches s) xs
  count-positive s [] h = refl
  count-positive s (x ∷ xs) h = ground (arith, count-positive s xs h)

  pub length-take-le : (n : ℕ) (xs : List A) → length (take n xs) ≤ n
  length-take-le zero xs = omega arith
  length-take-le (suc n) [] = omega arith
  length-take-le (suc n) (x ∷ xs) = ground (arith, length-take-le n xs)

  pub filter-All_positive : (xs : List A) → All (λ x. 1 ≤ key x) (filter (λ x. leb 1 (key x)) xs)
  filter-All_positive [] = tt
  filter-All_positive (x ∷ xs) = elim (Bool-cases (leb 1 (key x))) [
    | inl e ↦ rw e (ground (arith, e), filter-All_positive xs)
    | inr e ↦ rw e (filter-All_positive xs)
  ]
