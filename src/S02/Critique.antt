-- ===== src/S02/Critique.antt =====
-- What S02.80 keeps of the critic's answer (application/s02_handlers/shared.py, `_grounded_critique`).
pub mod Laws
use Prim.Native.Char.{Char, code}
use agent_code_optimize_plug.Prelude.{
  String, Bool, true, false, List, [], ◌∷◌, ◌++◌, ◌&&◌, ◌||◌, not, ◌==◌, if◌then◌else◌, eqb, all,
  any, filter, map, contains, is_empty,
}
use agent_code_optimize_plug.Prelude.Dict.{Dict}
use agent_code_optimize_plug.Contracts.Plan.{
  PlanTask, ExecutionPhase, CritiqueReply, GroundedCritique,
}
use agent_code_optimize_plug.S02.Checks.{is_diagnostic}

-- `text.startswith(prefix)`
unfoldable pub starts_with : String → String → Bool
starts_with String.[] text = true
starts_with (String.◌∷◌ c prefix) String.[] = false
starts_with (String.◌∷◌ c prefix) (String.◌∷◌ d text) =
    let rest = starts_with prefix text in eqb (code c) (code d) && rest

-- `part in text`
unfoldable pub within : String → String → Bool
unfolding starts_with
within part String.[] = starts_with part ""
within part (String.◌∷◌ c text) =
    let rest = within part text in starts_with part (String.◌∷◌ c text) || rest

abbrev pub markers : List String
markers =
    "rollback=none" ∷ "rollback = none" ∷ "no rollback" ∷ "without rollback" ∷ "missing rollback"
    ∷ "rollback is none" ∷ "lacks rollback" ∷ "rollback command is not" ∷ "has no rollback"
    ∷ "null rollback" ∷ []

-- `lower` and `strip` are Python's, of strings.
module _ (lower strip : String → String) where
  unfoldable pub contradicts_diagnostic_rollback_rule : String → List String → Bool
  unfolding within
  contradicts_diagnostic_rollback_rule message diagnostic_phase_ids =
      any (λ phase_id. within phase_id (lower message)) diagnostic_phase_ids
      && (within "rollback" (lower message)
          && any (λ marker. within marker (lower message)) markers)

  -- the phrases that a message may refer to
  unfoldable pub anchors :
      List ExecutionPhase → List PlanTask → Dict Bool → List String → List String
  anchors phases tasks coverage rollback_reasons =
      map (λ phase. lower phase.phase_id) phases
      ++ (map (λ phase. lower phase.treatment_variable) phases
          ++ (map (λ task. lower task.task_id) tasks
              ++ (files tasks
                  ++ (map (λ entry. lower entry.0) coverage
                      ++ (("criteria" ∷ "criterion" ∷ "done_criteria" ∷ "rollback" ∷ "dependency"
                            ∷ [])
                          ++ map lower rollback_reasons)))))
    where
      files : List PlanTask → List String
      files [] = []
      files (task ∷ tasks) = map lower task.files ++ files tasks

  abbrev pub diagnostic_ids : List ExecutionPhase → List String
  diagnostic_ids phases = map (λ phase. lower phase.phase_id) (filter is_diagnostic phases)

  abbrev pub grounded : List String → String → Bool
  grounded anchors message =
      any (λ anchor. not (anchor == "") && within anchor (lower message)) anchors

  abbrev pub actionable : List String → List String → String → Bool
  actionable anchors ids message =
      grounded anchors message && not (contradicts_diagnostic_rollback_rule message ids)

  -- the verdict: an explicit rejection stays, but where each of its reasons is of the one kind
  unfoldable pub verdict : Bool → List String → List String → Bool
  unfolding contradicts_diagnostic_rollback_rule
  verdict approved reasons ids =
      approved
      || (not (is_empty reasons)
          && all (λ message. contradicts_diagnostic_rollback_rule message ids) reasons)

  abbrev pub texts : List String → List String
  texts items = filter (λ item. not (strip item == "")) items

  unfoldable pub critique_on : List String → List String → CritiqueReply → GroundedCritique
  unfolding verdict
  critique_on anchors ids reply =
      let omissions = texts reply.omissions in
      let concerns = texts reply.concerns in
      let kept_omissions = filter (actionable anchors ids) omissions in
      let kept_concerns = filter (actionable anchors ids) concerns in
      record {
        omissions = kept_omissions;
        concerns = kept_concerns;
        ignored_ungrounded =
            filter
              (λ message.
                not (contains message kept_omissions) && not (contains message kept_concerns))
              (omissions ++ concerns);
        approved = verdict reply.approved (omissions ++ concerns) ids;
      }

  unfoldable pub grounded_critique :
      CritiqueReply
      → List ExecutionPhase
      → List PlanTask
      → Dict Bool
      → List String
      → GroundedCritique
  unfolding anchors critique_on
  grounded_critique reply phases tasks coverage rollback_reasons =
      critique_on (anchors phases tasks coverage rollback_reasons) (diagnostic_ids phases) reply
