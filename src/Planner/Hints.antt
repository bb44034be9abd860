-- ===== src/Planner/Hints.antt =====
-- src/planner/decomposition.rs: what the words of a goal, a title or a description suggest.
-- `to_lowercase` is the standard library's Unicode lower case.
use rust_ia_micro_agents.Base.{
  ℕ, ◌%◌, String, find?, Bool, List, [], ◌∷◌, Option, none, some, any, find, get_elem?, is_some,
  length, if◌then◌else◌, or_else,
}
use rust_ia_micro_agents.Base.Text.{append, eq_ignore_ascii_case}

unfoldable pub contains_any : String → List String → Bool
contains_any text needles = any (λ needle. is_some (find? text needle)) needles

-- `format!("{a}\n{b}")`.
abbrev pub two_lines : String → String → String
two_lines a b = append a (append "\n" b)

abbrev pub role_hints : List (List String × String)
role_hints =
    ("verify" ∷ "review" ∷ "check" ∷ "validate" ∷ [], "verifier")
    ∷ ("integrate" ∷ "merge" ∷ "synthesize" ∷ "final" ∷ [], "integrator")
    ∷ ("implement" ∷ "build" ∷ "execute" ∷ "produce" ∷ [], "implementer")
    ∷ ("research" ∷ "search" ∷ "compare" ∷ "gather" ∷ [], "researcher")
    ∷ []

-- `roles.iter().find(|item| item.eq_ignore_ascii_case(role))`.
unfoldable pub matching_role : List String → String → Option String
matching_role roles role = find (λ item. eq_ignore_ascii_case item role) roles

unfoldable pub hinted_role : List String → String → List (List String × String) → Option String
hinted_role roles text [] = none
hinted_role roles text ((needles, role) ∷ hints) =
    or_else (if contains_any text needles then matching_role roles role else none)
      (hinted_role roles text hints)

module _ (to_lowercase : String → String) where
  abbrev pub requested_role : List String → Option String → Option String
  requested_role roles none = none
  requested_role roles (some role) = matching_role roles role

  unfoldable pub resolve_candidate_role :
      List String → Option String → String → String → ℕ → Option String
  resolve_candidate_role [] requested title description idx = requested
  resolve_candidate_role (r ∷ rs) requested title description idx =
      or_else
        (or_else (requested_role (r ∷ rs) requested)
          (hinted_role (r ∷ rs) (to_lowercase (two_lines title description)) role_hints))
        (get_elem? (r ∷ rs) (idx % length (r ∷ rs)))

  unfoldable pub task_requires_live_data : String → String → Bool
  task_requires_live_data goal description =
      contains_any (to_lowercase (two_lines goal description)) (
        "al día de hoy" ∷ "al dia de hoy" ∷ "precio actual" ∷ "current price" ∷ "hoy" ∷ "latest"
        ∷ "mercado" ∷ "trading" ∷ "noticia" ∷ "noticias" ∷ "news" ∷ "btc" ∷ "bitcoin" ∷ "ethereum"
        ∷ "solana" ∷ "url" ∷ "link" ∷ "enlace" ∷ [])

  unfoldable pub requires_strict_reasoning : String → Bool
  requires_strict_reasoning goal = contains_any (to_lowercase goal) (
      "btc" ∷ "bitcoin" ∷ "eth" ∷ "ethereum" ∷ "solana" ∷ "forecast" ∷ "predic" ∷ "trading"
      ∷ "mercado" ∷ "market" ∷ "macro" ∷ "probabilidad" ∷ "scenario" ∷ "escenario" ∷ "thesis"
      ∷ "tesis" ∷ "riesgo sist" ∷ "al dia de hoy" ∷ "al día de hoy" ∷ "ranking" ∷ "compara"
      ∷ "comparacion" ∷ "comparación" ∷ "recomend" ∷ [])

  -- The names stand in the order of `sort`, each with the words that add it, which `dedup` adds once.
  abbrev evidence_words : List (String × List String)
  evidence_words =
      ("bitcoin", "bitcoin" ∷ "btc" ∷ [])
      ∷ ("ethereum", "ethereum" ∷ "eth" ∷ [])
      ∷ ("news", "noticias" ∷ "news" ∷ [])
      ∷ ("solana", "solana" ∷ "sol" ∷ [])
      ∷ []

  unfoldable pub evidence_in : String → List (String × List String) → List String
  evidence_in normalized [] = []
  evidence_in normalized ((name, words) ∷ rest) =
      let others = evidence_in normalized rest in
      if contains_any normalized words then name ∷ others else others

  unfoldable pub infer_evidence_inputs : String → String → List String
  infer_evidence_inputs goal description =
      evidence_in (to_lowercase (two_lines goal description)) evidence_words

  unfoldable pub infer_analysis_track : String → String → String
  infer_analysis_track title description =
      let normalized = to_lowercase (two_lines title description) in
      if contains_any normalized ("integrate" ∷ "merge" ∷ "synthesize" ∷ "final answer" ∷ [])
      then "integration"
      else if contains_any normalized
          ("verify" ∷ "review" ∷ "validate" ∷ "risk" ∷ "compliance" ∷ [])
      then "validation"
      else if contains_any normalized
          ("market" ∷ "pricing" ∷ "tam" ∷ "sam" ∷ "som" ∷ "competencia" ∷ [])
      then "market_research"
      else if contains_any normalized
          ("motor" ∷ "consumo" ∷ "reventa" ∷ "repuestos" ∷ "diversion" ∷ [])
      then "comparison"
      else if contains_any normalized ("teorema" ∷ "algoritmo" ∷ "moral" ∷ "computabilidad" ∷ [])
      then "theory"
      else "general_analysis"
