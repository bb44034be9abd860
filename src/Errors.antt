-- ===== src/Errors.antt =====
-- src/errors.rs: the error type that every fallible operation returns.
use rust_ia_micro_agents.Base.{ℕ, String, ◌≡◌, refl, ◌⊎◌, inl, inr}
use rust_ia_micro_agents.Base.Text.{append}

pub data AppError : Type 0 where
  config identity skill storage http provider : String → AppError
  timeout permission_denied validation not_found io internal : String → AppError

pub data AppResult {ℓ} (A : Type ℓ) : Type ℓ where
  ok : A → AppResult A
  err : AppError → AppResult A

infixl 5 ◌>>=◌ ◌>>◌
abbrev pub ◌>>=◌ {ℓ κ} : {A : Type ℓ} {B : Type κ} → AppResult A → (A → AppResult B) → AppResult B
ok a >>= f = f a
err e >>= f = err e

abbrev pub ◌>>◌ {ℓ} : {B : Type ℓ} → AppResult (Unit {0}) → AppResult B → AppResult B
m >> k = m >>= λ _. k

-- `into_response`: the HTTP status of an error.
unfoldable pub status : AppError → ℕ
status (config _) = 400
status (validation _) = 400
status (identity _) = 400
status (skill _) = 400
status (permission_denied _) = 403
status (not_found _) = 404
status (timeout _) = 504
status (provider _) = 502
status (http _) = 502
status (storage _) = 500
status (io _) = 500
status (internal _) = 500

-- `to_string`, as the `#[error]` attributes give it.
unfoldable pub to_string : AppError → String
to_string (config e) = append "configuration error: " e
to_string (identity e) = append "identity error: " e
to_string (skill e) = append "skill error: " e
to_string (storage e) = append "storage error: " e
to_string (http e) = append "http error: " e
to_string (provider e) = append "provider error: " e
to_string (timeout e) = append "timeout: " e
to_string (permission_denied e) = append "permission denied: " e
to_string (validation e) = append "validation error: " e
to_string (not_found e) = append "not found: " e
to_string (io e) = append "io error: " e
to_string (internal e) = append "internal error: " e

pub AppResult-cases {ℓ} :
    {A : Type ℓ} (r : AppResult A) → ((a : A) × (r ≡ ok a)) ⊎ ((e : AppError) × (r ≡ err e))
AppResult-cases (ok a) = inl (a, refl)
AppResult-cases (err e) = inr (e, refl)
