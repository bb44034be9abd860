-- ===== src/Skills/Selector.antt =====
-- src/skills/selector.rs: the skills that a text and recent hints suggest, best first. `to_lowercase`
-- is the standard library's Unicode lower case. A score is a natural number: the program's is an
-- i32, which a text would have to mention hundreds of millions of times to overflow.
use rust_ia_micro_agents.Base.{
  ℕ, ◌+◌, ◌≤◌, min, String, find?, starts_with, str_eq, ◌≡◌, refl, List, [], ◌∷◌, Option, Bool, All,
  any, is_some, arith, count, length, filter, if◌then◌else◌, leb,
}
use rust_ia_micro_agents.Base.Rows.{take, All-take, count-take-le, count-filter-le}
use rust_ia_micro_agents.Base.Text.{split_at}
use rust_ia_micro_agents.Base.Ranking.{
  sort_descending, IsRanked, sort_descending-IsRanked, count-sort_descending, filter-IsRanked,
  take-IsRanked, count-take, count-positive, length-take-le, filter-All_positive,
}

-- src/skills/manifest.rs
pub data SkillKind : Type 0 where
  builtin command http : SkillKind

module _ (Value : Type 0) where
  pub record SkillManifest : Type 0 where
    pub name : String
    pub version : String
    pub description : String
    pub kind : SkillKind
    pub entrypoint : String
    pub input_schema : Option Value
    pub output_schema : Option Value
    pub permissions : List String
    pub timeout_ms : ℕ
    pub max_retries : ℕ
    pub cache_ttl_secs : ℕ
    pub idempotent : Bool
    pub side_effects : String
    pub tags : List String
    pub triggers : List String

  -- src/skills/registry.rs
  pub record SkillDefinition : Type 0 where
    pub manifest : SkillManifest
    pub sections : List (String × String)
    pub folder : String

module _ (to_lowercase : String → String) where
  -- `user_lower.contains(&word.to_lowercase())`.
  abbrev mentions : String → String → Bool
  mentions user_lower word = is_some (find? user_lower (to_lowercase word))

  unfoldable pub trigger_score : String → List String → ℕ
  trigger_score user_lower [] = 0
  trigger_score user_lower (trigger ∷ triggers) =
      (if mentions user_lower trigger then 5 else 0) + trigger_score user_lower triggers

  abbrev hinted : List String → String → Bool
  hinted hints tag = any (λ hint. str_eq (to_lowercase hint) (to_lowercase tag)) hints

  unfoldable pub tag_score : String → List String → List String → ℕ
  tag_score user_lower hints [] = 0
  tag_score user_lower hints (tag ∷ tags) =
      (if mentions user_lower tag then 3 else 0)
      + (if hinted hints tag then 2 else 0)
      + tag_score user_lower hints tags

  unfoldable pub name_score : String → List String → ℕ
  name_score user_lower [] = 0
  name_score user_lower (token ∷ tokens) =
      (if mentions user_lower token then 1 else 0) + name_score user_lower tokens

  module _ {Value : Type 0} where
    unfoldable pub score : String → List String → SkillDefinition Value → ℕ
    score user_text hints skill =
        let user_lower = to_lowercase user_text in
        trigger_score user_lower skill.manifest.triggers
        + tag_score user_lower hints skill.manifest.tags
        + name_score user_lower (split_at 46 skill.manifest.name)
        + (if starts_with skill.manifest.name "agent." then 1 else 0)

    abbrev pub is_suggested : String → List String → SkillDefinition Value → Bool
    is_suggested user_text hints skill = leb 1 (score user_text hints skill)

    unfoldable pub select :
        List (SkillDefinition Value) → String → List String → ℕ → List (SkillDefinition Value)
    select available user_text recent_hints max_skills = take max_skills (
        filter (is_suggested user_text recent_hints)
          (sort_descending (score user_text recent_hints) available))

    -- The selection is ranked by score, has skills of a positive score only and at most `max_skills`
    -- of them, has no skill more often than it is available, and is the best there is: from any
    -- positive score upwards it has as many skills as are available, up to `max_skills`.
    pub select-IsBest :
        (available : List (SkillDefinition Value)) (user_text : String) (hints : List String)
        (max_skills : ℕ)
        → let selected = select available user_text hints max_skills in
          let points = score user_text hints in
          IsRanked points selected
          × All (λ skill. 1 ≤ points skill) selected
          × (length selected ≤ max_skills)
          × ((p : SkillDefinition Value → Bool) → count p selected ≤ count p available)
          × ((s : ℕ)
              → 1 ≤ s
              → count (λ skill. leb s (points skill)) selected
                ≡ min max_skills (count (λ skill. leb s (points skill)) available))
    unfolding select
    select-IsBest available user_text hints n =
        let points = score user_text hints in
        let sorted = sort_descending points available in
        let fit = is_suggested user_text hints in
        let ranked =
          filter-IsRanked points fit sorted (sort_descending-IsRanked points available) in
        (
          take-IsRanked points n (filter fit sorted) ranked,
          All-take (λ skill. 1 ≤ points skill) n (filter fit sorted)
              (filter-All_positive points sorted),
          length-take-le points n (filter fit sorted),
          λ p. omega (
            arith,
            count-take-le p n (filter fit sorted),
            count-filter-le p fit sorted,
            count-sort_descending points p available,
          ),
          λ s h.
              rw
                (
                  count-take points s n (filter fit sorted) ranked,
                  count-positive points s sorted h,
                  count-sort_descending points (λ skill. leb s (points skill)) available,
                )
                refl,
        )
