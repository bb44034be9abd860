-- ===== src/Team/Manager/Invariant.antt =====
-- The pool's invariant: ids are distinct, an ephemeral subagent is numbered below the counter, and
-- an idle subagent is a persistent one with no task.
use rust_ia_micro_agents.Base.{
  ℕ, ◌<◌, String, ◌≡◌, refl, ap, ◌≢◌, inl, inr, Bool, true, false, List, [], ◌∷◌, map, none, arith,
  All, update_first, remove_first, if◌then◌else◌, Bool-cases,
}
use rust_ia_micro_agents.Base.Text.{codes}
use rust_ia_micro_agents.Base.Text.{drop_chars}
use rust_ia_micro_agents.Base.Decimal.{to_string-injective}
use rust_ia_micro_agents.Base.Distinct.{IsFresh, AreDistinct}
use rust_ia_micro_agents.Team.Subagent.{Subagent}
use rust_ia_micro_agents.Team.Manager.Pool.{TeamManager, is_idle, ephemeral_id, subagent_id}

first_code : List ℕ → ℕ
first_code [] = 0
first_code (c ∷ cs) = c

pub ephemeral_id-injective : (m n : ℕ) → ephemeral_id m ≡ ephemeral_id n → m ≡ n
unfolding ephemeral_id
ephemeral_id-injective m n e = to_string-injective m n (ap (drop_chars 10) e)

pub subagent_id-injective : (m n : ℕ) → subagent_id m ≡ subagent_id n → m ≡ n
unfolding subagent_id
subagent_id-injective m n e = to_string-injective m n (ap (drop_chars 9) e)

pub subagent_id-ne-ephemeral_id : (m n : ℕ) → subagent_id m ≢ ephemeral_id n
unfolding subagent_id ephemeral_id first_code
subagent_id-ne-ephemeral_id m n e =
    absurd (let h : ◌≡◌ {A = ℕ} b's' b'e' = ap (λ s. first_code (codes s)) e in omega arith)

pub record IsMember (next : ℕ) (a : Subagent) : Type 0 where
  pub number : ℕ
  pub named : a.id ≡ (if a.ephemeral then ephemeral_id number else subagent_id number)
  pub below : a.ephemeral ≡ true → number < next
  pub free : is_idle a.state ≡ true → (a.current_task_id ≡ none) × (a.ephemeral ≡ false)

abbrev pub agent_ids : List Subagent → List String
agent_ids pool = map (λ a. a.id) pool

pub record IsWellFormed (m : TeamManager) : Type 0 where
  pub distinct : AreDistinct (agent_ids m.subagents)
  pub members : All (IsMember m.next_ephemeral_id) m.subagents

pub agent_ids-update_first :
    (p : Subagent → Bool) (f : Subagent → Subagent)
    → ((a : Subagent) → (f a).id ≡ a.id)
    → (pool : List Subagent) → agent_ids (update_first p f pool) ≡ agent_ids pool
agent_ids-update_first p f h [] = refl
agent_ids-update_first p f h (a ∷ rest) = ground (arith, h a, agent_ids-update_first p f h rest)

-- A change of the first fit keeps a property of all items that it keeps of that item.
pub All-update_first {ℓ} :
    {A : Type ℓ} (P : A → Type 0) (p : A → Bool) (f : A → A)
    → ((a : A) → p a ≡ true → P a → P (f a))
    → (pool : List A) → All P pool
    → All P (update_first p f pool)
All-update_first P p f h [] m = tt
All-update_first P p f h (a ∷ rest) m = elim (Bool-cases (p a)) [
  | inl e ↦ rw e (h a e m.0, m.1)
  | inr e ↦ rw e (m.0, All-update_first P p f h rest m.1)
]

pub All-remove_first {ℓ} :
    {A : Type ℓ} (P : A → Type 0) (p : A → Bool) (pool : List A)
    → All P pool
    → All P (remove_first p pool)
All-remove_first P p [] m = tt
All-remove_first P p (a ∷ rest) m = elim (Bool-cases (p a)) [
  | inl e ↦ rw e m.1
  | inr e ↦ rw e (m.0, All-remove_first P p rest m.1)
]

pub IsFresh-remove_first :
    (i : String) (p : Subagent → Bool) (pool : List Subagent)
    → IsFresh i (agent_ids pool)
    → IsFresh i (agent_ids (remove_first p pool))
IsFresh-remove_first i p [] m = tt
IsFresh-remove_first i p (a ∷ rest) m = elim (Bool-cases (p a)) [
  | inl e ↦ rw e m.1
  | inr e ↦ rw e (m.0, IsFresh-remove_first i p rest m.1)
]

pub AreDistinct-remove_first :
    (p : Subagent → Bool) (pool : List Subagent)
    → AreDistinct (agent_ids pool)
    → AreDistinct (agent_ids (remove_first p pool))
AreDistinct-remove_first p [] d = tt
AreDistinct-remove_first p (a ∷ rest) d = elim (Bool-cases (p a)) [
  | inl e ↦ rw e d.1
  | inr e ↦ rw e (IsFresh-remove_first a.id p rest d.0, AreDistinct-remove_first p rest d.1)
]

-- Changing one subagent, under its id and as a member still.
pub update-IsWellFormed :
    (m : TeamManager) (p : Subagent → Bool) (f : Subagent → Subagent)
    → ((a : Subagent) → (f a).id ≡ a.id)
    → ((a : Subagent)
        → p a ≡ true
        → IsMember m.next_ephemeral_id a
        → IsMember m.next_ephemeral_id (f a))
    → IsWellFormed m
    → IsWellFormed (record m { subagents = update_first p f m.subagents })
update-IsWellFormed m p f same keep w = record {
  distinct = rw (agent_ids-update_first p f same m.subagents) w.distinct;
  members = All-update_first (IsMember m.next_ephemeral_id) p f keep m.subagents w.members;
}

pub remove-IsWellFormed :
    (m : TeamManager) (p : Subagent → Bool)
    → IsWellFormed m
    → IsWellFormed (record m { subagents = remove_first p m.subagents })
remove-IsWellFormed m p w = record {
  distinct = AreDistinct-remove_first p m.subagents w.distinct;
  members = All-remove_first (IsMember m.next_ephemeral_id) p m.subagents w.members;
}
