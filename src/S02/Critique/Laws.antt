-- ===== src/S02/Critique/Laws.antt =====
-- When the rejection of S02.80's critic is overridden (application/s02_handlers/shared.py).
use mathlib.Core.Bool.{false≢true}
use agent_code_optimize_plug.Prelude.{
  String, Bool, true, false, List, [], ◌∷◌, ◌++◌, ◌≡◌, refl, sym, ap, ◌∙◌, arith, all, any,
  is_empty, All, All-map, Memᴰ,
}
use agent_code_optimize_plug.Prelude.Dict.{Dict}
use agent_code_optimize_plug.Contracts.Plan.{PlanTask, ExecutionPhase, CritiqueReply}
use agent_code_optimize_plug.S02.Checks.{is_diagnostic}
use agent_code_optimize_plug.S02.Critique.{
  starts_with, within, contradicts_diagnostic_rollback_rule, diagnostic_ids, verdict, texts,
  critique_on, grounded_critique,
}

starts_with_trans :
    (a b c : String) → starts_with a b ≡ true → starts_with b c ≡ true → starts_with a c ≡ true
unfolding starts_with
starts_with_trans String.[] b c h k = refl
starts_with_trans (String.◌∷◌ x a) String.[] c h k = absurd (false≢true h)
starts_with_trans (String.◌∷◌ x a) (String.◌∷◌ y b) String.[] h k = absurd (false≢true k)
starts_with_trans (String.◌∷◌ x a) (String.◌∷◌ y b) (String.◌∷◌ z c) h k =
    ground (arith, starts_with_trans a b c)

within-starts_with : (a b : String) → starts_with a b ≡ true → within a b ≡ true
unfolding within
within-starts_with a String.[] h = h
within-starts_with a (String.◌∷◌ c b) h = ground arith

within-starts : (a b c : String) → within a b ≡ true → starts_with b c ≡ true → within a c ≡ true
unfolding starts_with within
within-starts String.[] String.[] c h k = within-starts_with "" c refl
within-starts (String.◌∷◌ x a) String.[] c h k = absurd (false≢true h)
within-starts a (String.◌∷◌ y b) String.[] h k = absurd (false≢true k)
within-starts a (String.◌∷◌ y b) (String.◌∷◌ z c) h k =
    ground (arith, within-starts a b c, starts_with_trans a (String.◌∷◌ y b) (String.◌∷◌ z c))

within_trans : (a b c : String) → within a b ≡ true → within b c ≡ true → within a c ≡ true
unfolding within
within_trans a b String.[] h k = within-starts a b "" h k
within_trans a b (String.◌∷◌ z c) h k =
    ground (arith, within_trans a b c, within-starts a b (String.◌∷◌ z c))

all-of_All :
    (test : String → Bool) (xs : List String) → All (λ x. test x ≡ true) xs → all test xs ≡ true
all-of_All test [] h = refl
all-of_All test (x ∷ xs) h = rw h.0 (all-of_All test xs h.1)

module _ (lower strip : String → String) where
  any-diagnostic :
      (message : String) (p : ExecutionPhase) (phases : List ExecutionPhase)
      → Memᴰ p phases
      → is_diagnostic p ≡ true
      → within (lower p.phase_id) message ≡ true
      → any (λ phase_id. within phase_id message) (diagnostic_ids lower strip phases) ≡ true
  any-diagnostic message p [] m d h = elim m [ ]
  any-diagnostic message p (q ∷ phases) (Memᴰ.head e) d h =
      rw (ap is_diagnostic (sym e) ∙ d, ap (λ x. within (lower x.phase_id) message) (sym e) ∙ h)
        refl
  any-diagnostic message p (q ∷ phases) (Memᴰ.tail m) d h =
      ground (arith, any-diagnostic message p phases m d h)

  -- a message on a missing rollback, in the words that count, with an id in it of a diagnostic phase
  contradicts-within :
      (message : String) (p : ExecutionPhase) (phases : List ExecutionPhase)
      → Memᴰ p phases
      → is_diagnostic p ≡ true
      → within (lower p.phase_id) (lower message) ≡ true
      → within "no rollback" (lower message) ≡ true
      → contradicts_diagnostic_rollback_rule lower strip message (diagnostic_ids lower strip phases)
        ≡ true
  unfolding contradicts_diagnostic_rollback_rule
  contradicts-within message p phases m d h marked =
      rw
        (
          any-diagnostic (lower message) p phases m d h,
          within_trans "rollback" "no rollback" (lower message) refl marked,
          marked,
        )
        (ground arith)

  -- Where the lower-case id of a phase, an implementation phase too, contains that of a diagnostic
  -- one, a rejection whose reasons all name that phase and say "no rollback" is turned into an
  -- approval.
  pub grounded_critique-overridden :
      (reply : CritiqueReply) (phases : List ExecutionPhase) (tasks : List PlanTask)
      (coverage : Dict Bool) (rollback_reasons : List String) (p q : ExecutionPhase)
      → Memᴰ p phases
      → is_diagnostic p ≡ true
      → within (lower p.phase_id) (lower q.phase_id) ≡ true
      → is_empty (texts lower strip reply.omissions ++ texts lower strip reply.concerns) ≡ false
      → All
          (λ reason.
            (within (lower q.phase_id) (lower reason) ≡ true)
            × (within "no rollback" (lower reason) ≡ true))
          (texts lower strip reply.omissions ++ texts lower strip reply.concerns)
      → (grounded_critique lower strip reply phases tasks coverage rollback_reasons).approved ≡ true
  unfolding grounded_critique critique_on verdict
  grounded_critique-overridden reply phases tasks coverage rollback_reasons p q m d inside
        some_reason reasons =
      rw
        (
          some_reason,
          all-of_All
              (λ message.
                contradicts_diagnostic_rollback_rule lower strip message
                  (diagnostic_ids lower strip phases))
              _
              (All-map _ _ (texts lower strip reply.omissions ++ texts lower strip reply.concerns)
                (λ reason h.
                  contradicts-within reason p phases m d
                    (within_trans (lower p.phase_id) (lower q.phase_id) (lower reason) inside h.0)
                    h.1)
                reasons),
        )
        (ground arith)
