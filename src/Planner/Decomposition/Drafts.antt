-- ===== src/Planner/Decomposition/Drafts.antt =====
-- The planner's own drafts are numbered from one on, and are no more than a plan may have.
use rust_ia_micro_agents.Base.{
  ℕ, zero, suc, ◌+◌, ◌≤◌, max, String, ◌≡◌, refl, ap, ◌∙◌, Bool, true, false, List, [], ◌∷◌, ◌++◌,
  some, inl, inr, arith, length, is_empty, if◌then◌else◌, ltb, ltb→lt, subst, Option-cases,
}
use rust_ia_micro_agents.Base.Rows.{take}
use rust_ia_micro_agents.Planner.Goals.{task_number, split_goal, chunk_seeds}
use rust_ia_micro_agents.Planner.Comparison.{
  Track, track_seeds, tracks, ranking_seed, with_ranking, build_comparison_seeds,
}
use rust_ia_micro_agents.Planner.Analysis.{
  AnalysisTrack, analysis_seeds, analysis_tracks, selected, constraints_seed, with_constraints,
  build_structured_analysis_seeds,
}
use rust_ia_micro_agents.Planner.Materialize.{PlanSeed}
use rust_ia_micro_agents.Planner.Decomposition.{build_chunk_seeds, initial_seeds}
use rust_ia_micro_agents.Planner.Decomposition.Numbers.{IsNumbered}

pub length-take-le : {A : Type 0} (n : ℕ) (xs : List A) → length (take n xs) ≤ n
length-take-le zero xs = omega arith
length-take-le (suc n) [] = omega arith
length-take-le (suc n) (x ∷ xs) = omega (arith, length-take-le n xs)

-- The drafts are numbered from one on, and there are at most so many.
pub record IsDraft (cap : ℕ) (seeds : List PlanSeed) : Type 0 where
  pub numbered : IsNumbered 0 seeds
  pub within : length seeds ≤ cap

IsNumbered-snoc :
    (idx : ℕ) (seeds : List PlanSeed) (seed : PlanSeed)
    → IsNumbered idx seeds
    → seed.id ≡ some (task_number (idx + length seeds))
    → IsNumbered idx (seeds ++ seed ∷ [])
IsNumbered-snoc idx [] seed n e = (e ∙ ap (λ k. some (task_number k)) (omega arith), tt)
IsNumbered-snoc idx (s ∷ ss) seed n e =
    (n.0, IsNumbered-snoc (idx + 1) ss seed n.1 (e ∙ ap (λ k. some (task_number k)) (omega arith)))

length_snoc :
    (seeds : List PlanSeed) (seed : PlanSeed) → length (seeds ++ seed ∷ []) ≡ length seeds + 1
length_snoc [] seed = refl
length_snoc (s ∷ ss) seed = omega (arith, length_snoc ss seed)

IsDraft-snoc :
    (cap : ℕ) (seeds : List PlanSeed) (seed : PlanSeed)
    → IsDraft cap seeds
    → ltb (length seeds) cap ≡ true
    → seed.id ≡ some (task_number (length seeds))
    → IsDraft cap (seeds ++ seed ∷ [])
IsDraft-snoc cap seeds seed d room e = record {
  numbered =
      IsNumbered-snoc 0 seeds seed d.numbered (e ∙ ap (λ k. some (task_number k)) (omega arith));
  within = omega (arith, length_snoc seeds seed, ltb→lt (length seeds) cap room);
}

chunk_seeds-IsNumbered :
    (roles : List String) (idx : ℕ) (chunks : List String)
    → IsNumbered idx (chunk_seeds roles idx chunks)
unfolding chunk_seeds
chunk_seeds-IsNumbered roles idx [] = tt
chunk_seeds-IsNumbered roles idx (c ∷ cs) = (refl, chunk_seeds-IsNumbered roles (idx + 1) cs)

length-chunk_seeds :
    (roles : List String) (idx : ℕ) (chunks : List String)
    → length (chunk_seeds roles idx chunks) ≡ length chunks
unfolding chunk_seeds
length-chunk_seeds roles idx [] = refl
length-chunk_seeds roles idx (c ∷ cs) = ap suc (length-chunk_seeds roles (idx + 1) cs)

track_seeds-IsNumbered : (idx : ℕ) (ts : List Track) → IsNumbered idx (track_seeds idx ts)
unfolding track_seeds
track_seeds-IsNumbered idx [] = tt
track_seeds-IsNumbered idx (t ∷ ts) = (refl, track_seeds-IsNumbered (idx + 1) ts)

length-track_seeds : (idx : ℕ) (ts : List Track) → length (track_seeds idx ts) ≡ length ts
unfolding track_seeds
length-track_seeds idx [] = refl
length-track_seeds idx (t ∷ ts) = ap suc (length-track_seeds (idx + 1) ts)

analysis_seeds-IsNumbered :
    (idx : ℕ) (ts : List AnalysisTrack) → IsNumbered idx (analysis_seeds idx ts)
unfolding analysis_seeds
analysis_seeds-IsNumbered idx [] = tt
analysis_seeds-IsNumbered idx (t ∷ ts) = (refl, analysis_seeds-IsNumbered (idx + 1) ts)

length-analysis_seeds :
    (idx : ℕ) (ts : List AnalysisTrack) → length (analysis_seeds idx ts) ≡ length ts
unfolding analysis_seeds
length-analysis_seeds idx [] = refl
length-analysis_seeds idx (t ∷ ts) = ap suc (length-analysis_seeds (idx + 1) ts)

IsDraft-if :
    (cap : ℕ) (seeds : List PlanSeed) (seed : PlanSeed) (b : Bool)
    → IsDraft cap seeds
    → (b ≡ true → ltb (length seeds) cap ≡ true)
    → seed.id ≡ some (task_number (length seeds))
    → IsDraft cap (if b then seeds ++ seed ∷ [] else seeds)
IsDraft-if cap seeds seed true d room e = IsDraft-snoc cap seeds seed d (room refl) e
IsDraft-if cap seeds seed false d room e = d

with_ranking-IsDraft :
    (normalized : String) (cap : ℕ) (seeds : List PlanSeed)
    → IsDraft cap seeds
    → IsDraft cap (with_ranking normalized cap seeds)
unfolding with_ranking ranking_seed
with_ranking-IsDraft normalized cap seeds d =
    IsDraft-if cap seeds (ranking_seed (length seeds)) _ d (λ h. ground arith) refl

with_constraints-IsDraft :
    (normalized : String) (cap : ℕ) (seeds : List PlanSeed)
    → IsDraft cap seeds
    → IsDraft cap (with_constraints normalized cap seeds)
unfolding with_constraints constraints_seed
with_constraints-IsDraft normalized cap seeds d =
    IsDraft-if cap seeds (constraints_seed (length seeds)) _ d (λ h. ground arith) refl

build_comparison_seeds-IsDraft :
    (to_lowercase : String → String) (goal : String) (cap : ℕ) (seeds : List PlanSeed)
    → 1 ≤ cap
    → build_comparison_seeds to_lowercase goal cap ≡ some seeds
    → IsDraft cap seeds
unfolding build_comparison_seeds
build_comparison_seeds-IsDraft to_lowercase goal cap seeds h e =
    let normalized = to_lowercase goal in
    let chosen = take (max cap 1) (tracks normalized) in
    let first = track_seeds 0 chosen in
    let made : with_ranking normalized cap first ≡ seeds = ground arith in
    subst (IsDraft cap) made (
      with_ranking-IsDraft normalized cap first (record {
        numbered = track_seeds-IsNumbered 0 chosen;
        within =
            omega
              (arith, length-track_seeds 0 chosen, length-take-le (max cap 1) (tracks normalized));
      }))

build_structured_analysis_seeds-IsDraft :
    (to_lowercase : String → String) (goal : String) (cap : ℕ) (seeds : List PlanSeed)
    → 1 ≤ cap
    → build_structured_analysis_seeds to_lowercase goal cap ≡ some seeds
    → IsDraft cap seeds
unfolding build_structured_analysis_seeds
build_structured_analysis_seeds-IsDraft to_lowercase goal cap seeds h e =
    let normalized = to_lowercase goal in
    let chosen = take (max cap 1) (selected normalized analysis_tracks) in
    let first = analysis_seeds 0 chosen in
    let made : with_constraints normalized cap first ≡ seeds = ground arith in
    subst (IsDraft cap) made (
      with_constraints-IsDraft normalized cap first (record {
        numbered = analysis_seeds-IsNumbered 0 chosen;
        within = omega (
          arith,
          length-analysis_seeds 0 chosen,
          length-take-le (max cap 1) (selected normalized analysis_tracks),
        );
      }))

split_goal-le : (goal : String) (cap : ℕ) → 1 ≤ cap → length (split_goal goal cap) ≤ cap
unfolding split_goal
split_goal-le goal cap h = omega (arith, length-take-le (max cap 1) _)

build_chunk_seeds-IsDraft :
    (roles : List String) (goal : String) (cap : ℕ) (seeds : List PlanSeed)
    → 1 ≤ cap
    → build_chunk_seeds roles goal cap ≡ some seeds
    → IsDraft cap seeds
unfolding build_chunk_seeds
build_chunk_seeds-IsDraft [] goal cap seeds h e = cc
build_chunk_seeds-IsDraft (role ∷ roles) goal cap seeds h e =
    let chunks = split_goal goal cap in
    let made : chunk_seeds (role ∷ roles) 0 chunks ≡ seeds = cc in
    subst (IsDraft cap) made (record {
      numbered = chunk_seeds-IsNumbered (role ∷ roles) 0 chunks;
      within = omega (arith, length-chunk_seeds (role ∷ roles) 0 chunks, split_goal-le goal cap h);
    })

-- Whichever way a goal is drafted.
pub initial_seeds-IsDraft :
    (to_lowercase : String → String) (roles : List String) (goal : String) (cap : ℕ)
    (seeds : List PlanSeed)
    → 1 ≤ cap
    → initial_seeds to_lowercase roles goal cap ≡ some seeds
    → IsDraft cap seeds
unfolding initial_seeds
initial_seeds-IsDraft to_lowercase roles goal cap seeds h e =
    elim (Option-cases (build_comparison_seeds to_lowercase goal cap)) [
      | inl (compared) ↦
          elim (Option-cases (build_structured_analysis_seeds to_lowercase goal cap)) [
            | inl analysed ↦
                build_chunk_seeds-IsDraft roles goal cap seeds h
                  (ground (arith, compared, analysed))
            | inr (found, analysed) ↦
                build_structured_analysis_seeds-IsDraft to_lowercase goal cap seeds h
                  (ground (arith, compared, analysed))
          ]
      | inr (found, compared) ↦
          build_comparison_seeds-IsDraft to_lowercase goal cap seeds h (ground (arith, compared))
    ]

-- A team with a role has drafts for every goal.
pub initial_seeds-total :
    (to_lowercase : String → String) (roles : List String) (goal : String) (cap : ℕ)
    → is_empty roles ≡ false
    → (seeds : List PlanSeed) × (initial_seeds to_lowercase roles goal cap ≡ some seeds)
unfolding initial_seeds build_chunk_seeds
initial_seeds-total to_lowercase [] goal cap h = cc
initial_seeds-total to_lowercase (role ∷ roles) goal cap h =
    elim (Option-cases (build_comparison_seeds to_lowercase goal cap)) [
      | inl compared ↦ elim (Option-cases (build_structured_analysis_seeds to_lowercase goal cap)) [
        | inl analysed ↦
            (chunk_seeds (role ∷ roles) 0 (split_goal goal cap), ground (arith, compared, analysed))
        | inr (found, analysed) ↦ (found, ground (arith, compared, analysed))
      ]
      | inr (found, compared) ↦ (found, ground (arith, compared))
    ]
