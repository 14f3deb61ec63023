-- ===== src/Examples/Critiques.antt =====
-- A rejection of S02.80's critic for the missing rollback of the implementation phase p10, in a plan
-- with the diagnostic phase p1.
use agent_code_optimize_plug.Prelude.{String, true, false, none, some, [], ◌∷◌, ◌≡◌, refl, Memᴰ}
use agent_code_optimize_plug.Contracts.Strategy.{RiskTier}
use agent_code_optimize_plug.Contracts.Plan.{
  diagnostic, implementation, ExecutionPhase, CritiqueReply,
}
use agent_code_optimize_plug.S02.Critique.{grounded_critique, within}
use agent_code_optimize_plug.S02.Critique.Laws.{grounded_critique-overridden}

abbrev same : String → String
same text = text

abbrev look : ExecutionPhase
look = record {
  phase_id = "p1";
  sequence = 1;
  phase_kind = diagnostic;
  treatment_variable = "cache";
  risk_tier = RiskTier.code;
  rollback_command = none;
}

abbrev change : ExecutionPhase
change = record look {
  phase_id = "p10";
  sequence = 2;
  phase_kind = implementation;
  rollback_command = some "git revert";
}

abbrev rejection : CritiqueReply
rejection = record { omissions = []; concerns = "p10 has no rollback" ∷ []; approved = false }

-- another reason beside it keeps the rejection
two_reasons :
    (grounded_critique same same
      (record rejection { omissions = "no owner" ∷ [] })
      (look ∷ change ∷ [])
      []
      []
      []).approved
    ≡ false
unfolding grounded_critique
two_reasons = refl

grounded_critique-overridden_example :
    (grounded_critique same same rejection (look ∷ change ∷ []) [] [] []).approved ≡ true
unfolding within
grounded_critique-overridden_example =
    grounded_critique-overridden same same rejection (look ∷ change ∷ []) [] [] [] look change
      (Memᴰ.head refl) refl refl refl ((refl, refl), tt)
