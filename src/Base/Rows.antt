-- ===== src/Base/Rows.antt =====
-- Rows of a table: an order by a numeric column, a limit, an update of the rows that fit, and how
-- many rows of a key a statement can see.
use Prim.Native.Nat.{ℕ, zero, suc, ◌≤◌, ◌<◌}
use mathlib.Core.Path.{◌≡◌, refl}
use mathlib.Core.Logic.{◌⊎◌, inl, inr}
use mathlib.Core.Bool.{Bool, true}
use mathlib.Core.List.{List, [], ◌∷◌, ◌++◌}
use native.Mathlib.Omega.{arith}
use rust_ia_micro_agents.Base.Tests.{if◌then◌else◌, leb, Bool-cases}
use rust_ia_micro_agents.Base.Lists.{count, filter, All, Any}

le→leb : (a b : ℕ) → a ≤ b → leb a b ≡ true
le→leb a b h = ground arith

module _ {ℓ} {A : Type ℓ} where
  -- The row goes before the first one with a larger key, so rows of one key keep the table's order.
  unfoldable pub insert_by : (A → ℕ) → A → List A → List A
  insert_by key x [] = x ∷ []
  insert_by key x (y ∷ ys) = if leb (key x) (key y) then x ∷ (y ∷ ys) else y ∷ insert_by key x ys

  -- `ORDER BY key ASC`.
  unfoldable pub order_by : (A → ℕ) → List A → List A
  unfolding insert_by
  order_by key [] = []
  order_by key (x ∷ xs) = insert_by key x (order_by key xs)

  -- `LIMIT n`.
  abbrev pub take : ℕ → List A → List A
  take zero xs = []
  take (suc n) [] = []
  take (suc n) (x ∷ xs) = x ∷ take n xs

  -- `UPDATE … WHERE p`.
  abbrev pub update_where : (A → Bool) → (A → A) → List A → List A
  update_where p f [] = []
  update_where p f (x ∷ xs) = (if p x then f x else x) ∷ update_where p f xs

  pub count-take-le : (p : A → Bool) (n : ℕ) (xs : List A) → count p (take n xs) ≤ count p xs
  count-take-le p zero xs = omega arith
  count-take-le p (suc n) [] = omega arith
  count-take-le p (suc n) (x ∷ xs) = ground (arith, count-take-le p n xs)

  pub count-filter-le : (p q : A → Bool) (xs : List A) → count p (filter q xs) ≤ count p xs
  count-filter-le p q [] = omega arith
  count-filter-le p q (x ∷ xs) = ground (arith, count-filter-le p q xs)

  count-insert_by :
      (p : A → Bool) (key : A → ℕ) (x : A) (xs : List A)
      → count p (insert_by key x xs) ≡ count p (x ∷ xs)
  unfolding insert_by
  count-insert_by p key x [] = refl
  count-insert_by p key x (y ∷ ys) = ground (arith, count-insert_by p key x ys)

  pub count-order_by :
      (p : A → Bool) (key : A → ℕ) (xs : List A) → count p (order_by key xs) ≡ count p xs
  unfolding order_by
  count-order_by p key [] = refl
  count-order_by p key (x ∷ xs) =
      ground (arith, count-insert_by p key x (order_by key xs), count-order_by p key xs)

  pub count-update_where :
      (p q : A → Bool) (f : A → A) (xs : List A)
      → ((x : A) → p (f x) ≡ p x)
      → count p (update_where q f xs) ≡ count p xs
  count-update_where p q f [] h = refl
  count-update_where p q f (x ∷ xs) h = ground (arith, h x, count-update_where p q f xs h)

module _ {ℓ} {A : Type ℓ} where
  pub All-filter {κ} :
      (P : A → Type κ) (p : A → Bool) (xs : List A) → All P xs → All P (filter p xs)
  All-filter P p [] h = tt
  All-filter P p (x ∷ xs) h = elim (Bool-cases (p x)) [
    | inl e ↦ rw e (h.0, All-filter P p xs h.1)
    | inr e ↦ rw e (All-filter P p xs h.1)
  ]

module _ {A : Type 0} (P : A → Type 0) where
  All-insert_by : (key : A → ℕ) (x : A) (xs : List A) → P x → All P xs → All P (insert_by key x xs)
  unfolding insert_by
  All-insert_by key x [] c h = (c, tt)
  All-insert_by key x (y ∷ ys) c h = elim (Bool-cases (leb (key x) (key y))) [
    | inl e ↦ rw e (c, h)
    | inr e ↦ rw e (h.0, All-insert_by key x ys c h.1)
  ]

  pub All-order_by : (key : A → ℕ) (xs : List A) → All P xs → All P (order_by key xs)
  unfolding order_by
  All-order_by key [] h = tt
  All-order_by key (x ∷ xs) h = All-insert_by key x (order_by key xs) h.0 (All-order_by key xs h.1)

  pub All-snoc : (xs : List A) {x : A} → All P xs → P x → All P (xs ++ x ∷ [])
  All-snoc [] h p = (p, tt)
  All-snoc (y ∷ ys) h p = (h.0, All-snoc ys h.1 p)

  pub Any-snoc : (xs : List A) (x : A) → Any P xs → Any P (xs ++ x ∷ [])
  Any-snoc [] x m = elim m [ ]
  Any-snoc (y ∷ ys) x (inl p) = inl p
  Any-snoc (y ∷ ys) x (inr m) = inr (Any-snoc ys x m)

  pub All-take : (n : ℕ) (xs : List A) → All P xs → All P (take n xs)
  All-take zero xs h = tt
  All-take (suc n) [] h = tt
  All-take (suc n) (x ∷ xs) h = (h.0, All-take n xs h.1)

  pub All-update_where :
      (q : A → Bool) (f : A → A) (xs : List A)
      → ((x : A) → P x → P (f x))
      → All P xs
      → All P (update_where q f xs)
  All-update_where q f [] k h = tt
  All-update_where q f (x ∷ xs) k h = elim (Bool-cases (q x)) [
    | inl e ↦ rw e (k x h.0, All-update_where q f xs k h.1)
    | inr e ↦ rw e (h.0, All-update_where q f xs k h.1)
  ]

module _ {A : Type 0} (key : A → ℕ) (first : A) where
  -- The row is the one looked for, or comes behind it.
  abbrev pub ComesAfter : A → Type 0
  ComesAfter x = (x ≡ first) ⊎ (key first < key x)

  insert_by-head :
      (xs : List A) → All ComesAfter xs → (rest : List A) × (insert_by key first xs ≡ first ∷ rest)
  unfolding insert_by
  insert_by-head [] h = ([], refl)
  insert_by-head (y ∷ ys) h = elim h.0 [
    | inl e ↦ (y ∷ ys, rw (le→leb (key first) (key y) (rw e (omega arith))))
    | inr lt ↦ (y ∷ ys, rw (le→leb (key first) (key y) (omega arith)))
  ]

  insert_by-behind :
      (x : A) (rest : List A)
      → key first < key x
      → insert_by key x (first ∷ rest) ≡ first ∷ insert_by key x rest
  unfolding insert_by
  insert_by-behind x rest lt = ground arith

  -- A row that is in the list, and before every other row by its key, is the first of the order.
  pub order_by-head :
      (xs : List A)
      → All ComesAfter xs
      → Any (λ x. x ≡ first) xs
      → (rest : List A) × (order_by key xs ≡ first ∷ rest)
  unfolding order_by
  order_by-head [] h m = elim m [ ]
  order_by-head (x ∷ xs) h (inl e) =
      rw e (insert_by-head (order_by key xs) (All-order_by ComesAfter key xs h.1))
  order_by-head (x ∷ xs) h (inr m) = elim h.0 [
    | inl e ↦ rw e (insert_by-head (order_by key xs) (All-order_by ComesAfter key xs h.1))
    | inr lt ↦
        let (rest, sorted) = order_by-head xs h.1 m in
        (insert_by key x rest, rw sorted (insert_by-behind x rest lt))
  ]
