-- ===== src/Contracts/Errors.antt =====
-- The exceptions that the modelled code raises, one constructor for each kind of raise, and code
-- that may raise while it works on an outside state: what was written before a raise stays written.
use agent_code_optimize_plug.Prelude.{◌≡◌, refl, ap, subst, String, List, Option, none, some}

pub data Error : Type 0 where
  -- `_require`: the case state lacks a required identity field
  missing_identity : String → Error
  -- a handler's required state field is missing or empty
  missing_state : String → Error
  -- a required artifact is not among the case's references
  missing_artifact : String → Error
  -- a handler needs ports or a port that is `None`
  missing_port : String → Error
  -- NodeNotEnabledError
  node_not_enabled : String → Error
  -- InvalidNodeExecutionError, by what was wrong
  undeclared_route : String → Error
  protected_fields : List String → Error
  -- the conflict errors of the state's reducers
  artifact_conflict : String → String → Error
  route_conflict : String → String → String → Error
  -- the ledger's refusals
  no_prepared_intent : String → Error
  no_pending_intent : String → Error
  -- the outbox has no row for a tenant and an event
  no_outbox_record : String → String → Error
  -- the refusals of the table of cases
  case_exists : String → String → Error
  no_case : String → String → Error
  -- a model's validator refused the value
  invalid_model : String → Error
  -- `_apply_operator` met an operator that is not in the table
  unknown_operator : String → Error
  -- `min()` or `[0]` on an empty sequence, a missing dictionary key
  empty_sequence : Error
  missing_key : String → Error
  -- the resume errors
  naive_time : Error
  no_pending_interrupt : Error
  resume_denied : List String → Error
  -- a registered policy function answered for another policy version, or was registered badly
  policy_version_mismatch : String → String → Error
  blank_argument : String → Error
  -- what a handler or a port raises for reasons of its own
  outside : String → Error

pub data Result {ℓ} (A : Type ℓ) : Type ℓ where
  ok : A → Result A
  err : Error → Result A

abbrev pub bind_result {ℓ κ} : {A : Type ℓ} {B : Type κ} → Result A → (A → Result B) → Result B
bind_result (ok a) f = f a
bind_result (err e) f = err e

-- The value of an optional, or a raise.
abbrev pub or_raise {ℓ} : {A : Type ℓ} → Option A → Error → Result A
or_raise none e = err e
or_raise (some a) e = ok a

abbrev pub Exec : Type 0 → Type 0 → Type 0
Exec S A = S → Result A × S

abbrev pub pure : {S A : Type 0} → A → Exec S A
pure a s = (ok a, s)

abbrev pub raise : {S A : Type 0} → Error → Exec S A
raise e s = (err e, s)

abbrev pub lift : {S A : Type 0} → Result A → Exec S A
lift r s = (r, s)

abbrev pub continue : {S A B : Type 0} → Result A → (A → Exec S B) → Exec S B
continue (ok a) f s = f a s
continue (err e) f s = (err e, s)

infixl 5 ◌>>=◌ ◌>>◌
abbrev pub ◌>>=◌ : {S A B : Type 0} → Exec S A → (A → Exec S B) → Exec S B
◌>>=◌ m f s = let (r, s') = m s in continue r f s'

abbrev pub ◌>>◌ : {S A B : Type 0} → Exec S A → Exec S B → Exec S B
m >> k = m >>= λ _. k

pub bind_result-eq_ok {ℓ κ} :
    {A : Type ℓ} {B : Type κ} (m : Result A) (f : A → Result B) {b : B}
    → bind_result m f ≡ ok b
    → (a : A) × (m ≡ ok a) × (f a ≡ ok b)
bind_result-eq_ok (ok a) f h = (a, refl, h)
bind_result-eq_ok (err e) f h = cc

-- What code returned, if it returned, satisfies a predicate.
unfoldable pub Returns : {S A : Type 0} → (A → Type 0) → Result A × S → Type 0
Returns {A = A} P p = (a : A) → p.0 ≡ ok a → P a

pub pure-Returns : {S A : Type 0} (P : A → Type 0) (a : A) (s : S) → P a → Returns P (pure a s)
unfolding Returns
pure-Returns P a s h b e = subst P (cc e) h

pub lift-Returns :
    {S A : Type 0} (P : A → Type 0) (r : Result A) (s : S)
    → ((a : A) → r ≡ ok a → P a)
    → Returns P (lift r s)
unfolding Returns
lift-Returns P r s h b e = h b e

pub continue-Returns :
    {S A B : Type 0} (P : B → Type 0) (r : Result A) (f : A → Exec S B) (s : S)
    → ((a : A) → r ≡ ok a → Returns P (f a s))
    → Returns P (continue r f s)
unfolding Returns
continue-Returns P (ok a) f s h b e = h a refl b e
continue-Returns P (err x) f s h b e = cc

pub bind-Returns :
    {S A B : Type 0} (P : B → Type 0) (m : Exec S A) (f : A → Exec S B) (s : S)
    → ((a : A) (s' : S) → m s ≡ (ok a, s') → Returns P (f a s'))
    → Returns P ((m >>= f) s)
bind-Returns P m f s h =
    continue-Returns P (m s).0 f (m s).1 (λ a e. h a (m s).1 (ap (λ r. (r, (m s).1)) e))

pub Returns-map :
    {S A : Type 0} (P Q : A → Type 0) (p : Result A × S)
    → ((a : A) → P a → Q a)
    → Returns P p
    → Returns Q p
unfolding Returns
Returns-map P Q p f h a e = f a (h a e)
