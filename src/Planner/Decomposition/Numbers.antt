-- ===== src/Planner/Decomposition/Numbers.antt =====
-- The identifiers `task-1`, `task-2`, … of the planner's own drafts pass through `sanitize_task_id`
-- unchanged, so they are distinct and none is the integration task's.
use Prim.Native.Char.{Char, code}
use rust_ia_micro_agents.Base.{
  ℕ, ◌+◌, ◌≤◌, String, str_eq, str_eq_cases, ◌≡◌, ◌≢◌, refl, ap, ◌∙◌, Bool, false, List, [], ◌∷◌,
  some, inl, inr, arith,
}
use rust_ia_micro_agents.Base.Distinct.{IsFresh, AreDistinct}
use rust_ia_micro_agents.Base.Text.{
  append, trim_matches, trim_end_matches, is_whitespace, map_chars, lower_char, drop_chars,
}
use rust_ia_micro_agents.Base.Decimal.{
  to_string, to_string-injective, IsDigit, IsDigits, is_blank, to_string-IsDigits,
  to_string-is_blank,
}
use rust_ia_micro_agents.Planner.Slugs.{
  integration_task_slug, is_dash, dashed, cleaned, sanitize_task_id, scoped_task_id,
}
use rust_ia_micro_agents.Planner.Goals.{task_number}
use rust_ia_micro_agents.Planner.Materialize.{PlanSeed, requested_id, requested_ids}

module _ (p : ℕ → Bool) (spares : (c : Char) → IsDigit c → p (code c) ≡ false) where
  trim_end_matches-digits : (s : String) → IsDigits s → trim_end_matches p s ≡ s
  trim_end_matches-digits String.[] d = refl
  trim_end_matches-digits (String.◌∷◌ c String.[]) d = rw (spares c d.0) refl
  trim_end_matches-digits (String.◌∷◌ c (String.◌∷◌ e s)) d =
      rw (trim_end_matches-digits (String.◌∷◌ e s) d.1) refl

  trim_matches-numbered :
      (s : String)
      → IsDigits s
      → is_blank s ≡ false
      → p b't' ≡ false
      → trim_matches p (append "task-" s) ≡ append "task-" s
  trim_matches-numbered String.[] d b t = cc
  trim_matches-numbered (String.◌∷◌ c s) d b t =
      rw t (rw (trim_end_matches-digits (String.◌∷◌ c s) d) refl)

map_chars-digits :
    (f : Char → Char)
    → ((c : Char) → IsDigit c → f c ≡ c)
    → (s : String) → IsDigits s
    → map_chars f s ≡ s
map_chars-digits f h String.[] d = refl
map_chars-digits f h (String.◌∷◌ c s) d = rw (h c d.0) (rw (map_chars-digits f h s d.1) refl)

is_whitespace-digit : (c : Char) → IsDigit c → is_whitespace (code c) ≡ false
unfolding is_whitespace
is_whitespace-digit c d = ground arith

is_dash-digit : (c : Char) → IsDigit c → is_dash (code c) ≡ false
is_dash-digit c d = ground arith

dashed-digit : (c : Char) → IsDigit c → dashed c ≡ c
unfolding dashed
dashed-digit c d = ground arith

lower_char-digit : (c : Char) → IsDigit c → lower_char c ≡ c
lower_char-digit c d = ground arith

cleaned-numbered :
    (s : String) → IsDigits s → is_blank s ≡ false → cleaned (append "task-" s) ≡ append "task-" s
unfolding cleaned dashed is_whitespace
cleaned-numbered s d b =
    ap (λ t. map_chars lower_char (trim_matches is_dash (map_chars dashed t)))
      (trim_matches-numbered is_whitespace is_whitespace-digit s d b refl)
    ∙ ap (λ t. map_chars lower_char (trim_matches is_dash (append "task-" t)))
        (map_chars-digits dashed dashed-digit s d)
    ∙ ap (map_chars lower_char) (trim_matches-numbered is_dash is_dash-digit s d b refl)
    ∙ ap (append "task-") (map_chars-digits lower_char lower_char-digit s d)

head_code : String → ℕ
head_code String.[] = 0
head_code (String.◌∷◌ c s) = code c

str_eq_of_ne : (s t : String) → s ≢ t → str_eq s t ≡ false
str_eq_of_ne s t ne = elim (str_eq_cases s t) [ inl (e, p) ↦ absurd (ne p) | inr (e, _) ↦ e ]

-- The planner's own identifier is its own slug.
pub sanitize_task_id-task_number :
    (n idx : ℕ) → sanitize_task_id (some (task_number n)) idx ≡ some (task_number n)
unfolding sanitize_task_id task_number head_code
sanitize_task_id-task_number n idx =
    let s = append "task-" (to_string (n + 1)) in
    let slug =
      cleaned-numbered (to_string (n + 1)) (to_string-IsDigits (n + 1))
        (to_string-is_blank (n + 1)) in
    rw slug (rw (str_eq_of_ne s "" (λ e. cc)) refl)

task_number-injective : (m n : ℕ) → task_number m ≡ task_number n → m ≡ n
unfolding task_number
task_number-injective m n e =
    omega (arith, to_string-injective (m + 1) (n + 1) (ap (drop_chars 5) e))

-- No digit stands where the slug of the integration task has a letter.
digits-ne-integrate : (s : String) → IsDigits s → s ≢ "integrate"
unfolding head_code
digits-ne-integrate String.[] d e = cc
digits-ne-integrate (String.◌∷◌ c s) d e = absurd (omega (arith, d.0, ap head_code e))

task_number-ne-integration : (n : ℕ) → task_number n ≢ integration_task_slug
unfolding task_number
task_number-ne-integration n e =
    digits-ne-integrate (to_string (n + 1)) (to_string-IsDigits (n + 1)) (ap (drop_chars 5) e)

append-cancel : (p s t : String) → append p s ≡ append p t → s ≡ t
append-cancel String.[] s t e = e
append-cancel (String.◌∷◌ c p) s t e = append-cancel p s t (ap (drop_chars 1) e)

scoped-ne :
    (plan_id s t : String)
    → s ≢ t
    → str_eq (scoped_task_id plan_id s) (scoped_task_id plan_id t) ≡ false
unfolding scoped_task_id
scoped-ne plan_id s t ne =
    str_eq_of_ne _ _ (λ e. ne (append-cancel ":" s t (append-cancel plan_id _ _ e)))

-- The drafts bear the planner's own identifiers, from place `idx` on.
abbrev pub IsNumbered : ℕ → List PlanSeed → Type 0
IsNumbered idx [] = Unit
IsNumbered idx (seed ∷ seeds) = (seed.id ≡ some (task_number idx)) × IsNumbered (idx + 1) seeds

module _ (plan_id : String) where
  requested_id-numbered :
      (idx : ℕ) (seed : PlanSeed)
      → seed.id ≡ some (task_number idx)
      → requested_id plan_id idx seed ≡ scoped_task_id plan_id (task_number idx)
  unfolding requested_id
  requested_id-numbered idx seed e =
      rw (e, requested_id) (rw (sanitize_task_id-task_number idx idx) refl)

  requested_ids-IsFresh :
      (slug : String) (idx : ℕ) (seeds : List PlanSeed)
      → ((k : ℕ) → idx ≤ k → task_number k ≢ slug)
      → IsNumbered idx seeds
      → IsFresh (scoped_task_id plan_id slug) (requested_ids plan_id idx seeds)
  unfolding requested_ids
  requested_ids-IsFresh slug idx [] other n = tt
  requested_ids-IsFresh slug idx (seed ∷ seeds) other n = (
    rw (requested_id-numbered idx seed n.0)
        (scoped-ne plan_id (task_number idx) slug (other idx (omega arith))),
    requested_ids-IsFresh slug (idx + 1) seeds (λ k h. other k (omega arith)) n.1,
  )

  pub requested_ids-AreDistinct :
      (idx : ℕ) (seeds : List PlanSeed)
      → IsNumbered idx seeds
      → AreDistinct (requested_ids plan_id idx seeds)
  unfolding requested_ids
  requested_ids-AreDistinct idx [] n = tt
  requested_ids-AreDistinct idx (seed ∷ seeds) n = (
    rw (requested_id-numbered idx seed n.0) (
        requested_ids-IsFresh (task_number idx) (idx + 1) seeds
          (λ k h e. absurd (omega (arith, task_number-injective k idx e))) n.1),
    requested_ids-AreDistinct (idx + 1) seeds n.1,
  )

  pub requested_ids-ne-integration :
      (idx : ℕ) (seeds : List PlanSeed)
      → IsNumbered idx seeds
      → IsFresh (scoped_task_id plan_id integration_task_slug) (requested_ids plan_id idx seeds)
  requested_ids-ne-integration idx seeds n =
      requested_ids-IsFresh integration_task_slug idx seeds (λ k h. task_number-ne-integration k) n
