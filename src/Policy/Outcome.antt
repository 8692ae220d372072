-- ===== src/Policy/Outcome.antt =====
-- policy_governance.py: the outcome of a decision is the worst of its findings.
use cyber_hive.Prelude.{
  leb, if◌then◌else◌, nat_eq, string_eq, any, ℕ, String, ◌≡◌, refl, Bool, ◌&&◌, List, [], ◌∷◌, ◌++◌,
  arith,
}
use cyber_hive.Plan.Metadata.{Fields}
use cyber_hive.Policy.{
  PolicyOutcome, outcome_tag, PolicyContext, PolicyFinding, is_allowed, worst_outcome, PolicyGuard,
  finalize,
}

-- The worst so far, against one more.
abbrev pub worse : PolicyOutcome → PolicyOutcome → PolicyOutcome
worse a b = if leb (outcome_tag a) (outcome_tag b) then b else a

worst_outcome-cons :
    (f : PolicyFinding) (fs : List PolicyFinding)
    → worst_outcome (f ∷ fs) ≡ worse f.outcome (worst_outcome fs)
unfolding worst_outcome any
worst_outcome-cons f fs = ground arith

worse_assoc : (a b c : PolicyOutcome) → worse a (worse b c) ≡ worse (worse a b) c
worse_assoc a b c = ground arith

-- allow < warn < require_approval < deny
pub worst_outcome-append :
    (fs gs : List PolicyFinding)
    → worst_outcome (fs ++ gs) ≡ worse (worst_outcome fs) (worst_outcome gs)
worst_outcome-append [] gs = unfold worst_outcome any in ground arith
worst_outcome-append (f ∷ fs) gs =
    rw (worst_outcome-cons f (fs ++ gs), worst_outcome-cons f fs, worst_outcome-append fs gs)
      (worse_assoc f.outcome (worst_outcome fs) (worst_outcome gs))

-- No finding denies or wants an approval.
abbrev pub passes : List PolicyFinding → Bool
passes fs = leb (outcome_tag (worst_outcome fs)) 1

-- No finding denies.
abbrev pub not_denied : List PolicyFinding → Bool
not_denied fs = leb (outcome_tag (worst_outcome fs)) 2

pub passes-append : (fs gs : List PolicyFinding) → passes (fs ++ gs) ≡ (passes fs && passes gs)
passes-append fs gs = rw (worst_outcome-append fs gs) (ground arith)

pub not_denied-append :
    (fs gs : List PolicyFinding) → not_denied (fs ++ gs) ≡ (not_denied fs && not_denied gs)
not_denied-append fs gs = rw (worst_outcome-append fs gs) (ground arith)

pub is_allowed-passes :
    (guard : PolicyGuard) (ctx : PolicyContext) (fs : List PolicyFinding) (metadata : Fields)
    (id : String) (now : ℕ)
    → is_allowed (finalize guard ctx fs metadata id now).1 ≡ passes fs
unfolding is_allowed finalize
is_allowed-passes guard ctx fs metadata id now = ground arith

pub not_denied-outcome :
    (guard : PolicyGuard) (ctx : PolicyContext) (fs : List PolicyFinding) (metadata : Fields)
    (id : String) (now : ℕ)
    → leb (outcome_tag (finalize guard ctx fs metadata id now).1.outcome) 2 ≡ not_denied fs
unfolding finalize
not_denied-outcome guard ctx fs metadata id now = refl
