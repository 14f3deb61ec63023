-- ===== src/S02/Checks.antt =====
-- The deterministic checks of a plan (application/s02_handlers/shared.py).
pub mod Laws
use agent_code_optimize_plug.Prelude.{
  ℕ, zero, suc, String, Bool, true, false, Option, none, some, List, [], ◌∷◌, ◌++◌, ◌&&◌, not, ◌==◌,
  if◌then◌else◌, ltb, leb, eqb, filter, map, contains, sorted, is_empty,
}
use agent_code_optimize_plug.Prelude.Text.{◌^^◌, decimal}
use agent_code_optimize_plug.Contracts.Strategy.{RiskTier}
use agent_code_optimize_plug.Contracts.Plan.{
  PlanTask, PhaseKind, diagnostic, implementation, ExecutionPhase,
}
use agent_code_optimize_plug.S01.Shared.{risk_order, risk_value}

-- `sep.join(xs)`
unfoldable pub join : String → List String → String
join sep [] = ""
join sep (x ∷ []) = x
join sep (x ∷ y ∷ xs) = x ^^ (sep ^^ join sep (y ∷ xs))

-- `text or None`
abbrev pub or_none : String → Option String
or_none text = if text == "" then none else some text

-- a check's answer, with the detail of a failure
abbrev pub outcome : Bool → Option String → Bool × Option String
outcome true detail = (true, none)
outcome false detail = (false, detail)

abbrev pub is_diagnostic : ExecutionPhase → Bool
is_diagnostic p = of_kind p.phase_kind
  where
    of_kind : PhaseKind → Bool
    of_kind diagnostic = true
    of_kind implementation = false

abbrev pub sequences : (ExecutionPhase → Bool) → List ExecutionPhase → List ℕ
sequences test phases = map (λ p. p.sequence) (filter test phases)

-- `max(x, *xs)` and `min(x, *xs)`
abbrev pub maximum : ℕ → List ℕ → ℕ
maximum x [] = x
maximum x (y ∷ ys) = maximum (if ltb x y then y else x) ys

abbrev pub minimum : ℕ → List ℕ → ℕ
minimum x [] = x
minimum x (y ∷ ys) = minimum (if ltb y x then y else x) ys

-- whether all of `xs` are below all of `ys`, by maximum and minimum
unfoldable pub precede : List ℕ → List ℕ → Bool
precede [] ys = true
precede (x ∷ xs) [] = true
precede (x ∷ xs) (y ∷ ys) = ltb (maximum x xs) (minimum y ys)

-- `repr` of a list of numbers
unfoldable pub repr_numbers : List ℕ → String
unfolding join
repr_numbers xs = "[" ^^ (join ", " (map decimal xs) ^^ "]")

unfoldable pub check_phase_risk_order : List ExecutionPhase → Bool × Option String
unfolding precede repr_numbers
check_phase_risk_order phases =
    let diagnostics = sequences is_diagnostic phases in
    let implementations = sequences (λ p. not (is_diagnostic p)) phases in
    outcome (precede diagnostics implementations) (
      some (
        "diagnostic phase sequence(s) "
        ^^ (repr_numbers (sorted leb diagnostics)
            ^^ (" do not all precede implementation phase sequence(s) "
                ^^ (repr_numbers (sorted leb implementations)
                    ^^ " -- cheap, reversible diagnostic work must land before any implementation phase runs")))))

abbrev pub tier_of : ExecutionPhase → ℕ
tier_of p = risk_order p.risk_tier

abbrev pub same_numbers : List ℕ → List ℕ → Bool
same_numbers [] [] = true
same_numbers (x ∷ xs) (y ∷ ys) = eqb x y && same_numbers xs ys
same_numbers _ _ = false

abbrev pub by_sequence : ExecutionPhase → ExecutionPhase → Bool
by_sequence p q = leb p.sequence q.sequence

abbrev pub phase_text : ExecutionPhase → String
phase_text p =
    p.phase_id
    ^^ ("(seq=" ^^ (decimal p.sequence ^^ (", risk_tier=" ^^ (risk_value p.risk_tier ^^ ")"))))

unfoldable pub check_risk_ladder_order : List ExecutionPhase → Bool × Option String
unfolding join
check_risk_ladder_order phases =
    let ordered = sorted by_sequence phases in
    let tiers = map tier_of ordered in
    outcome (same_numbers tiers (sorted leb tiers)) (
      some (
        "phase risk_tier ordering violates risk ladder experiment_config < prompt < code < architecture: "
        ^^ join " -> " (map phase_text ordered)))

-- `str.replace` and `str.lstrip`
pub record Strings : Type 0 where
  pub replace : String → String → String → String
  pub lstrip : String → String → String

module _ (strings : Strings) where
  abbrev pub normalize_repo_path : String → String
  normalize_repo_path path = strings.lstrip (strings.replace path "\\" "/") "./"

  abbrev pub is_unresolved : List String → PlanTask → String → Bool
  is_unresolved allowed_paths task file =
      not task.proposed_creation && not (contains (normalize_repo_path file) allowed_paths)

  unfoldable pub path_resolution_failures : List PlanTask → List String → List String
  path_resolution_failures [] allowed_paths = []
  path_resolution_failures (task ∷ tasks) allowed_paths =
      map
        (λ file.
          task.task_id ^^ (": " ^^ (file ^^ " does not exist and is not marked proposed_creation")))
        (filter (is_unresolved allowed_paths task) task.files)
      ++ path_resolution_failures tasks allowed_paths

-- the reasons of S02.70
abbrev pub lacks_rollback : ExecutionPhase → Bool
lacks_rollback p = not (is_diagnostic p) && missing p.rollback_command
  where
    missing : Option String → Bool
    missing none = true
    missing (some _) = false

unfoldable pub rollback_reasons : List ExecutionPhase → List String
rollback_reasons phases =
    map (λ p. p.phase_id ^^ ": implementation phase has no rollback_command")
      (filter lacks_rollback phases)
