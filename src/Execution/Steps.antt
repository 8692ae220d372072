-- ===== src/Execution/Steps.antt =====
-- execution_engine.py: what a step may do, and the status of a run.
use cyber_hive.Prelude.{
  if◌then◌else◌, Bool-cases, string_eq, nat_eq, ◌==◌, any, String, ◌≡◌, refl, ◌↔◌, inl, inr, Bool,
  true, false, ◌||◌, List, [], ◌∷◌, arith, eq_iff,
}
use cyber_hive.Plan.{
  OrchestrationAction, queue, reject, is_reuse, is_reject, is_queue, OrchestrationStep,
  OrchestrationPlan,
}
use cyber_hive.Execution.{
  ExecutionStatus, succeeded, failed, skipped, dry_run, is_failed, ExecutionPolicy,
  ExecutionStepResult, result, execute_step, execute_steps, final_status,
}

-- the engine has a rule for the step
abbrev pub is_known : String → Bool
is_known name =
    (name == "reuse")
    || ((name == "data_placement")
        || ((name == "data_moves")
            || ((name == "scheduler_hints") || ((name == "route") || (name == "prewarm")))))

-- What a step that counts as done rests on.
pub record Cleared (policy : ExecutionPolicy) (step : OrchestrationStep) (plan : OrchestrationPlan)
    (dry : Bool) : Type 0 where
  pub live : dry ≡ false
  pub moves : (step.name == "data_moves") ≡ true → policy.allow_physical_data_moves ≡ true
  pub prewarms : (step.name == "prewarm") ≡ true → policy.allow_prewarm_side_effects ≡ true
  pub reuses : (step.name == "reuse") ≡ true → is_reuse plan.action ≡ true
  pub routes :
      (step.name == "route") ≡ true
      → (is_reject plan.action ≡ false) × (is_queue plan.action ≡ false)
  pub unknowns : is_known step.name ≡ false → policy.require_dry_run_for_unknown_steps ≡ false

succeeds-Cleared :
    (policy : ExecutionPolicy) (step : OrchestrationStep) (plan : OrchestrationPlan) (dry : Bool)
    → (execute_step policy step plan dry).status ≡ succeeded
    → Cleared policy step plan dry
unfolding execute_step
succeeds-Cleared policy step plan true h = cc
succeeds-Cleared policy step plan false h = record {
  live = refl;
  moves = λ e. let n = (eq_iff step.name "data_moves").0 e in ground (arith, rw n at h);
  prewarms = λ e. let n = (eq_iff step.name "prewarm").0 e in ground (arith, rw n at h);
  reuses = λ e. ground arith;
  routes = λ e.
      let n = (eq_iff step.name "route").0 e in
      (ground (arith, rw n at h), ground (arith, rw n at h));
  unknowns = λ e.
      let n1 : (step.name == "reuse") ≡ false = ground arith in
      let n2 : (step.name == "data_placement") ≡ false = ground arith in
      let n3 : (step.name == "data_moves") ≡ false = ground arith in
      let n4 : (step.name == "scheduler_hints") ≡ false = ground arith in
      let n5 : (step.name == "route") ≡ false = ground arith in
      let n6 : (step.name == "prewarm") ≡ false = ground arith in
      ground (arith, rw (n1, n2, n3, n4, n5, n6) at h);
}

Cleared-succeeds :
    (policy : ExecutionPolicy) (step : OrchestrationStep) (plan : OrchestrationPlan) (dry : Bool)
    → Cleared policy step plan dry
    → (execute_step policy step plan dry).status ≡ succeeded
unfolding execute_step result
Cleared-succeeds policy step plan true h = cc (h.live)
Cleared-succeeds policy step plan false h = elim (Bool-cases (step.name == "reuse")) [
  | inl e ↦ rw (e, h.reuses e) refl
  | inr n1 ↦ elim (Bool-cases (step.name == "data_placement")) [
    | inl e ↦ rw (n1, e) refl
    | inr n2 ↦ elim (Bool-cases (step.name == "data_moves")) [
      | inl e ↦ rw (n1, n2, e, h.moves e) refl
      | inr n3 ↦ elim (Bool-cases (step.name == "scheduler_hints")) [
        | inl e ↦ rw (n1, n2, n3, e) refl
        | inr n4 ↦ elim (Bool-cases (step.name == "route")) [
          | inl e ↦ rw (n1, n2, n3, n4, e, (h.routes e).0, (h.routes e).1) refl
          | inr n5 ↦ elim (Bool-cases (step.name == "prewarm")) [
            | inl e ↦ rw (n1, n2, n3, n4, n5, e, h.prewarms e) refl
            | inr n6 ↦
                let open_to : policy.require_dry_run_for_unknown_steps ≡ false =
                  h.unknowns (rw (n1, n2, n3, n4, n5, n6) refl) in
                rw (n1, n2, n3, n4, n5, n6, open_to) refl
          ]
        ]
      ]
    ]
  ]
]

-- Whatever the plan, a step succeeds exactly if the run is live and its own condition holds: for a data
-- move or a prewarm that the policy allows it, for a reuse that the plan is one, for a route that the plan
-- is neither rejected nor queued, for a step that the engine has no rule for that the policy does not
-- require a dry run of such steps. Data placement and scheduler hints have no condition of their own.
pub execute_step-Cleared :
    (policy : ExecutionPolicy) (step : OrchestrationStep) (plan : OrchestrationPlan) (dry : Bool)
    → (execute_step policy step plan dry).status ≡ succeeded ↔ Cleared policy step plan dry
execute_step-Cleared policy step plan dry =
    (succeeds-Cleared policy step plan dry, Cleared-succeeds policy step plan dry)

record IsSound (r : ExecutionStepResult) : Type 0 where
  holds : is_failed r.status ≡ false

IsSound-if :
    (test : Bool) (x y : ExecutionStepResult)
    → IsSound x
    → IsSound y
    → IsSound (if test then x else y)
IsSound-if true x y h h' = h
IsSound-if false x y h h' = h'

IsSound-result :
    (step : OrchestrationStep) (status : ExecutionStatus) (reason : String)
    → is_failed status ≡ false
    → IsSound (result step status reason)
unfolding result
IsSound-result step status reason h = record { holds = h }

execute_step-IsSound :
    (policy : ExecutionPolicy) (step : OrchestrationStep) (plan : OrchestrationPlan)
    → is_reject plan.action ≡ false
    → IsSound (execute_step policy step plan false)
unfolding execute_step
execute_step-IsSound policy step plan h = rw h (
    IsSound-if (step.name == "reuse") _ _
      (IsSound-if (is_reuse plan.action) _ _ (IsSound-result step _ _ refl)
        (IsSound-result step _ _ refl))
      (IsSound-if (step.name == "data_placement") _ _ (IsSound-result step _ _ refl) (
        IsSound-if (step.name == "data_moves") _ _
          (IsSound-if policy.allow_physical_data_moves _ _ (IsSound-result step _ _ refl)
            (IsSound-result step _ _ refl))
          (IsSound-if (step.name == "scheduler_hints") _ _ (IsSound-result step _ _ refl) (
            IsSound-if (step.name == "route") _ _
              (IsSound-if (is_queue plan.action) _ _ (IsSound-result step _ _ refl)
                (IsSound-result step _ _ refl))
              (IsSound-if (step.name == "prewarm") _ _
                (IsSound-if policy.allow_prewarm_side_effects _ _ (IsSound-result step _ _ refl)
                  (IsSound-result step _ _ refl))
                (IsSound-if policy.require_dry_run_for_unknown_steps _ _
                  (IsSound-result step _ _ refl) (IsSound-result step _ _ refl))))))))

-- A live step fails only in a rejected plan.
execute_step-failed :
    (policy : ExecutionPolicy) (step : OrchestrationStep) (plan : OrchestrationPlan)
    → is_reject plan.action ≡ false
    → is_failed (execute_step policy step plan false).status ≡ false
execute_step-failed policy step plan h = (execute_step-IsSound policy step plan h).holds

any-failed :
    (policy : ExecutionPolicy) (steps : List OrchestrationStep) (plan : OrchestrationPlan)
    → is_reject plan.action ≡ false
    → any (λ r. is_failed r.status) (execute_steps policy steps plan false) ≡ false
unfolding any execute_steps
any-failed policy [] plan h = refl
any-failed policy (step ∷ steps) plan h =
    rw (execute_step-failed policy step plan h) (any-failed policy steps plan h)

-- The status of a run by the plan's action alone.
abbrev pub status_for : OrchestrationAction → Bool → ExecutionStatus
status_for action true = dry_run
status_for reject false = failed
status_for queue false = skipped
status_for _ false = succeeded

-- The status of a run is settled by the plan's action, whatever its steps and the policy: a dry run is
-- one, a rejected plan fails, a queued one is skipped, and any other succeeds.
pub final_status-status_for :
    (policy : ExecutionPolicy) (plan : OrchestrationPlan) (dry : Bool)
    → final_status plan (execute_steps policy plan.steps plan dry) dry ≡ status_for plan.action dry
unfolding final_status
final_status-status_for policy plan true = ground arith
final_status-status_for policy plan false = elim (Bool-cases (is_reject plan.action)) [
  | inl r ↦ ground arith
  | inr live ↦ rw (live, any-failed policy plan.steps plan live) (ground arith)
]
