-- ===== src/Ports/Intents.antt =====
-- ports/intents.py: the ledger of node intents, with the laws that its callers rely on.
use agent_code_optimize_plug.Prelude.{String, Bool, true, false, ◌≡◌, ◌≢◌, Option, none, some}
use agent_code_optimize_plug.Contracts.Refs.{
  ArtifactRef, IntentRecord, IntentStatus, completed, pending,
}
use agent_code_optimize_plug.Contracts.Errors.{Error, ok, err, Exec}

pub record IntentLedger (L : Type 0) : Type 0 where
  pub prepare : IntentRecord → Exec L IntentRecord
  pub get : String → String → Exec L (Option IntentRecord)
  pub complete : String → String → ArtifactRef → Exec L IntentRecord
  pub mark_unknown : String → String → Exec L IntentRecord

-- What the ledger records under a key.
abbrev pub Records :
    {L : Type 0} → IntentLedger L → L → String → String → Option IntentRecord → Type 0
Records ledger l tenant key r = ledger.get tenant key l ≡ (ok r, l)

-- There is no completed record.
abbrev pub IsOpen : Option IntentRecord → Type 0
IsOpen none = Unit {0}
IsOpen (some r) = r.status ≢ completed

-- The record after `prepare`, where there was none that is completed.
abbrev pub prepared : IntentRecord → Option IntentRecord → IntentRecord
prepared intent none = record intent { output_ref = none }
prepared intent (some old) = record intent { output_ref = old.output_ref }

abbrev pub IsCompletedBy : ArtifactRef → IntentRecord → Type 0
IsCompletedBy ref r = (r.status ≡ completed) × (r.output_ref ≡ some ref)

-- The laws of a ledger that takes intents of the cases that it has, by `has_case`.
pub record IntentLedgerLaws {L : Type 0} (ledger : IntentLedger L)
    (has_case : L → String → String → Bool) : Type 0 where
  -- preparing an open intent of a case that is there succeeds and records it
  pub prepare_open :
      (l : L) (intent : IntentRecord) (old : Option IntentRecord)
      → Records ledger l intent.tenant_id intent.idempotency_key old
      → IsOpen old
      → has_case l intent.tenant_id intent.case_id ≡ true
      → (l' : L) × (ledger.prepare intent l ≡ (ok (prepared intent old), l'))
        × Records ledger l' intent.tenant_id intent.idempotency_key (some (prepared intent old))
  -- preparing an open intent of a case that is not there is refused, and records nothing
  pub prepare_refused :
      (l : L) (intent : IntentRecord) (old : Option IntentRecord)
      → Records ledger l intent.tenant_id intent.idempotency_key old
      → IsOpen old
      → has_case l intent.tenant_id intent.case_id ≡ false
      → (e : Error) × (ledger.prepare intent l ≡ (err e, l))
  -- a completed intent is never downgraded
  pub prepare_completed :
      (l : L) (intent r : IntentRecord)
      → Records ledger l intent.tenant_id intent.idempotency_key (some r)
      → r.status ≡ completed
      → (l' : L) × (ledger.prepare intent l ≡ (ok r, l'))
        × Records ledger l' intent.tenant_id intent.idempotency_key (some r)
  -- completing a recorded intent succeeds and records the output
  pub complete_recorded :
      (l : L) (tenant key : String) (ref : ArtifactRef) (r : IntentRecord)
      → Records ledger l tenant key (some r)
      → (l' : L) × (r' : IntentRecord) × (ledger.complete tenant key ref l ≡ (ok r', l'))
        × Records ledger l' tenant key (some r')
        × IsCompletedBy ref r'
  -- a pending intent can be marked, and is then neither pending nor completed
  pub mark_unknown_pending :
      (l : L) (tenant key : String) (r : IntentRecord)
      → Records ledger l tenant key (some r)
      → r.status ≡ pending
      → (l' : L) × (r' : IntentRecord) × (ledger.mark_unknown tenant key l ≡ (ok r', l'))
        × Records ledger l' tenant key (some r')
        × (r'.status ≡ IntentStatus.unknown)
