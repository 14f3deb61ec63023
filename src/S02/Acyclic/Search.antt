-- ===== src/S02/Acyclic/Search.antt =====
-- What one visit of `_check_acyclic` ends with (application/s02_handlers/shared.py).
use agent_code_optimize_plug.Prelude.{
  ℕ, zero, suc, ◌<◌, ◌≤◌, String, Bool, true, false, List, [], ◌∷◌, ◌≡◌, refl, sym, ap, subst, ◌∙◌,
  not, ◌==◌, if◌then◌else◌, contains, count, arith, eq_iff, Bool-cases, inl, inr,
}
use agent_code_optimize_plug.Prelude.Dict.{get, has}
use agent_code_optimize_plug.S02.Acyclic.{
  Graph, Marks, Visit, cycle, done, exhausted, dependencies, discard, visit_all, then_visit, enter,
  leave, visit, keys,
}
use agent_code_optimize_plug.S02.Acyclic.Path.{IsEdge, Depends}
use agent_code_optimize_plug.S02.Acyclic.Order.{IsOrdered}

-- the tasks that are not being visited
abbrev pub open_tasks : Graph → List String → ℕ
open_tasks graph visiting = count (λ k. not (contains k visiting)) (keys graph)

-- what a visit of the tasks `ts` from `marks` may end with
unfoldable pub GoodVisit : Graph → (String → Type 0) → Marks → Visit → Type 0
GoodVisit graph IsGoal marks cycle = (t : String) × Depends graph t t
GoodVisit graph IsGoal marks exhausted = ⊥
GoodVisit graph IsGoal marks (done after) =
    (after.visiting ≡ marks.visiting)
    × IsOrdered graph after.visited
    × ((t : String) → IsGoal t → contains t after.visited ≡ true)
    × ((t : String) → contains t marks.visited ≡ true → contains t after.visited ≡ true)

module _ (graph : Graph) where
  -- One more task under visit leaves one fewer open.
  count-open_less :
      (t : String) (visiting ts : List String)
      → contains t visiting ≡ false
      → count (λ k. not (contains k (t ∷ visiting))) ts ≤ count (λ k. not (contains k visiting)) ts
  count-open_less t visiting [] fresh = omega arith
  count-open_less t visiting (k ∷ ks) fresh = ground (arith, count-open_less t visiting ks fresh)

  count-open :
      (t : String) (visiting ts : List String)
      → contains t visiting ≡ false
      → contains t ts ≡ true
      → count (λ k. not (contains k (t ∷ visiting))) ts < count (λ k. not (contains k visiting)) ts
  count-open t visiting [] fresh known = cc
  count-open t visiting (k ∷ ks) fresh known = ground (
    arith,
    eq_iff k t,
    eq_iff t k,
    count-open_less t visiting ks fresh,
    count-open t visiting ks fresh,
  )

  discard-fresh : (t : String) (xs : List String) → contains t xs ≡ false → discard t xs ≡ xs
  discard-fresh t [] fresh = refl
  discard-fresh t (x ∷ xs) fresh = ground (arith, discard-fresh t xs)

  discard-head : (t : String) (xs : List String) → contains t xs ≡ false → discard t (t ∷ xs) ≡ xs
  discard-head t xs fresh = ground (arith, eq_iff t t, discard-fresh t xs fresh)

  -- A visit that meets a goal meets any narrower one.
  weaken-goal :
      (P Q : String → Type 0) (marks : Marks) (ended : Visit)
      → ((x : String) → Q x → P x)
      → GoodVisit graph P marks ended
      → GoodVisit graph Q marks ended
  unfolding GoodVisit
  weaken-goal P Q marks cycle f h = h
  weaken-goal P Q marks exhausted f h = h
  weaken-goal P Q marks (done after) f h = (h.0, h.1, λ x q. h.2 x (f x q), h.3)

  -- the visit of the next dependency, and of those behind it
  then_all-GoodVisit :
      (visit_task : String → Marks → Visit) (d : String) (ds : List String) (marks : Marks)
      (ended : Visit)
      → GoodVisit graph (λ x. (x ≡ d) × (has x graph ≡ true)) marks ended
      → ((after : Marks)
          → after.visiting ≡ marks.visiting
          → IsOrdered graph after.visited
          → GoodVisit graph
              (λ x. (contains x ds ≡ true) × (has x graph ≡ true))
              after
              (visit_all visit_task graph ds after))
      → GoodVisit graph
          (λ x. (contains x (d ∷ ds) ≡ true) × (has x graph ≡ true))
          marks
          (then_visit ended (visit_all visit_task graph ds))
  unfolding GoodVisit then_visit
  then_all-GoodVisit visit_task d ds marks cycle good rest = good
  then_all-GoodVisit visit_task d ds marks exhausted good rest = good
  then_all-GoodVisit visit_task d ds marks (done after) good rest =
      weaken (visit_all visit_task graph ds after) (rest after good.0 good.1)
    where
      weaken :
          (r : Visit)
          → GoodVisit graph (λ x. (contains x ds ≡ true) × (has x graph ≡ true)) after r
          → GoodVisit graph (λ x. (contains x (d ∷ ds) ≡ true) × (has x graph ≡ true)) marks r
      weaken cycle h = h
      weaken exhausted h = h
      weaken (done last) h = (
        h.0 ∙ good.0,
        h.1,
        λ x goal. elim (Bool-cases (d == x)) [
          | inl e ↦ h.3 x (good.2 x (ground (arith, eq_iff d x), goal.1))
          | inr e ↦ h.2 x (ground (arith, goal.0), goal.1)
        ],
        λ x before. h.3 x (good.3 x before),
      )

  leave-GoodVisit :
      (t : String) (marks : Marks) (ended : Visit)
      → contains t marks.visiting ≡ false
      → GoodVisit graph
          (λ x. IsEdge graph t x)
          (record marks { visiting = t ∷ marks.visiting })
          ended
      → GoodVisit graph (λ x. x ≡ t) marks (leave t ended)
  unfolding GoodVisit leave
  leave-GoodVisit t marks cycle fresh good = good
  leave-GoodVisit t marks exhausted fresh good = good
  leave-GoodVisit t marks (done after) fresh good = (
    ap (discard t) good.0 ∙ discard-head t marks.visiting fresh,
    (good.2, good.1),
    λ x here. ground (arith, eq_iff t x, sym here),
    λ x before. ground (arith, good.3 x before),
  )

  dependency-GoodVisit :
      (visit_task : String → Marks → Visit) (d : String) (marks : Marks) (known : Bool)
      → has d graph ≡ known
      → IsOrdered graph marks.visited
      → (known ≡ true → GoodVisit graph (λ x. x ≡ d) marks (visit_task d marks))
      → GoodVisit graph
          (λ x. (x ≡ d) × (has x graph ≡ true))
          marks
          (if known then visit_task d marks else done marks)
  unfolding GoodVisit
  dependency-GoodVisit visit_task d marks true is_known ordered good =
      weaken-goal (λ x. x ≡ d) (λ x. (x ≡ d) × (has x graph ≡ true)) marks (visit_task d marks)
        (λ x h. h.0) (good refl)
  dependency-GoodVisit visit_task d marks false is_known ordered good =
      (refl, ordered, λ x goal. cc (ap (λ y. has y graph) goal.0, is_known, goal.1), λ x h. h)

  visit_all-GoodVisit :
      (visit_task : String → Marks → Visit) (deps ds visiting : List String)
      → ((d : String) (marks : Marks)
          → contains d deps ≡ true
          → has d graph ≡ true
          → marks.visiting ≡ visiting
          → IsOrdered graph marks.visited
          → GoodVisit graph (λ x. x ≡ d) marks (visit_task d marks))
      → ((d : String) → contains d ds ≡ true → contains d deps ≡ true)
      → (marks : Marks) → marks.visiting ≡ visiting
      → IsOrdered graph marks.visited
      → GoodVisit graph
          (λ x. (contains x ds ≡ true) × (has x graph ≡ true))
          marks
          (visit_all visit_task graph ds marks)
  unfolding GoodVisit visit_all
  visit_all-GoodVisit visit_task deps [] visiting good sub marks same ordered =
      (refl, ordered, λ x goal. cc (goal.0), λ x h. h)
  visit_all-GoodVisit visit_task deps (d ∷ ds) visiting good sub marks same ordered =
      then_all-GoodVisit visit_task d ds marks
        (if has d graph then visit_task d marks else done marks)
        (dependency-GoodVisit visit_task d marks (has d graph) refl ordered
          (λ known. good d marks (sub d (ground (arith, eq_iff d d))) known same ordered))
        (λ after kept ordered'.
          visit_all-GoodVisit visit_task deps ds visiting good (λ x h. sub x (ground (arith, h)))
            after (kept ∙ same) ordered')

  enter-GoodVisit :
      (seen met : Bool) (t : String) (marks : Marks) (search : Marks → Visit)
      → (seen ≡ true → contains t marks.visited ≡ true)
      → IsOrdered graph marks.visited
      → (met ≡ true → Depends graph t t)
      → (met ≡ false
          → GoodVisit graph
              (λ x. x ≡ t)
              marks
              (search (record marks { visiting = t ∷ marks.visiting })))
      → GoodVisit graph (λ x. x ≡ t) marks (enter seen met t marks search)
  unfolding GoodVisit enter
  enter-GoodVisit true met t marks search was ordered is_cycle deeper =
      (refl, ordered, λ x same. ap (λ y. contains y marks.visited) same ∙ was refl, λ x h. h)
  enter-GoodVisit false true t marks search was ordered is_cycle deeper = (t, is_cycle refl)
  enter-GoodVisit false false t marks search was ordered is_cycle deeper = deeper refl

  pub contains-keys : (t : String) (d : Graph) → contains t (keys d) ≡ has t d
  unfolding get
  contains-keys t [] = refl
  contains-keys t ((k, ds) ∷ d) = ground (arith, contains-keys t d)

  -- The tasks under visit depend on each dependency of the innermost of them.
  callers-deeper :
      (t d : String) (visiting : List String)
      → ((v : String) → contains v visiting ≡ true → Depends graph v t)
      → IsEdge graph t d
      → (v : String) → contains v (t ∷ visiting) ≡ true
      → Depends graph v d
  callers-deeper t d visiting callers edge v h = elim (Bool-cases (t == v)) [
    | inl e ↦
        let same : t ≡ v = ground (arith, eq_iff t v) in
        subst (λ x. Depends graph x d) same (Depends.direct edge)
    | inr e ↦ Depends.further (callers v (ground (arith, h))) edge
  ]

  pub visit-GoodVisit :
      (fuel : ℕ) (t : String) (marks : Marks)
      → has t graph ≡ true
      → IsOrdered graph marks.visited
      → ((v : String) → contains v marks.visiting ≡ true → Depends graph v t)
      → open_tasks graph marks.visiting < fuel
      → GoodVisit graph (λ x. x ≡ t) marks (visit fuel graph t marks)
  unfolding GoodVisit visit
  visit-GoodVisit zero t marks known ordered callers bound = absurd (omega (arith, bound))
  visit-GoodVisit (suc fuel) t marks known ordered callers bound =
      enter-GoodVisit (contains t marks.visited) (contains t marks.visiting) t marks _ (λ h. h)
        ordered (λ h. callers t h)
        (λ fresh. leave-GoodVisit t marks _ fresh (
          visit_all-GoodVisit (visit fuel graph) (dependencies graph t) (dependencies graph t)
            (t ∷ marks.visiting)
            (λ d marks' listed known' same ordered'.
              visit-GoodVisit fuel d marks' known' ordered'
                (λ v h.
                  callers-deeper t d marks.visiting callers (listed, known') v
                    (sym (ap (contains v) same) ∙ h))
                (subst (λ vs. open_tasks graph vs < fuel) (sym same)
                  (omega (
                    arith,
                    bound,
                    count-open t marks.visiting (keys graph) fresh (contains-keys t graph ∙ known),
                  ))))
            (λ d h. h) (record marks { visiting = t ∷ marks.visiting }) refl ordered))
