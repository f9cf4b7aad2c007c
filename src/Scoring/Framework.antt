-- ===== src/Scoring/Framework.antt =====
-- sentinel/scoring.py: `FrameworkSummary`, `_compute_framework_summary`.
use soc2_sentinel.Base.{
  ℕ, String, Bool, true, false, List, [], ◌∷◌, ◌++◌, map, length, take, keep, count, contains,
  if◌then◌else◌,
}
use soc2_sentinel.Base.Int.{pos}
use soc2_sentinel.Python.{Py, ok, ◌>>=◌, Floats}
use soc2_sentinel.Scoring.{Status, pass, partial, fail, not_assessed, ControlScore}

-- The values of `readiness_level`.
pub data Readiness : Type 0 where
  no_evidence critical_gaps remediation_required substantial_compliance audit_ready : Readiness

pub record FrameworkSummary (F : Floats) : Type 0 where
  pub framework_id : String
  pub framework_name : String
  pub overall_score : F.Float
  pub controls_evaluated : ℕ
  pub controls_passed : ℕ
  pub controls_partial : ℕ
  pub controls_failed : ℕ
  pub readiness_level : Readiness
  pub pillar_scores : List (String × F.Float)
  pub critical_findings : List String

abbrev pub PillarMapping : Type 0
PillarMapping = List (String × List String)

abbrev pub is_pass : Status → Bool
is_pass pass = true
is_pass _ = false

abbrev pub is_partial : Status → Bool
is_partial partial = true
is_partial _ = false

-- `s.status in {"FAIL", "NOT_ASSESSED"}`
abbrev pub is_failed : Status → Bool
is_failed fail = true
is_failed not_assessed = true
is_failed _ = false

-- `s.status in {"FAIL", "PARTIAL"}`
abbrev pub is_critical : Status → Bool
is_critical fail = true
is_critical partial = true
is_critical _ = false

module _ (F : Floats) where
  open F use {lit, le, add, div, of_int, round_1}

  -- `sum(xs)`, which starts from the integer 0.
  unfoldable pub sum_from : F.Float → List F.Float → F.Float
  sum_from total [] = total
  sum_from total (x ∷ xs) = sum_from (add total x) xs

  -- `sum(xs) / len(xs)`
  unfoldable pub mean : List F.Float → Py F.Float
  unfolding sum_from
  mean xs = of_int (pos (length xs)) >>= λ n. div (sum_from (lit 0) xs) n

  -- `round(sum(matched) / len(matched), 1) if matched else 0.0`
  unfoldable pub rounded_mean : List F.Float → Py F.Float
  unfolding mean
  rounded_mean [] = ok (lit 0)
  rounded_mean (x ∷ xs) = mean (x ∷ xs) >>= λ m. ok (round_1 m)

  unfoldable pub pillar_score : List (ControlScore F) → List String → Py F.Float
  unfolding rounded_mean contains
  pillar_score scores ids =
      rounded_mean (map (λ s. s.score) (keep (λ s. contains ids s.control_id) scores))

  unfoldable pub pillars : List (ControlScore F) → PillarMapping → Py (List (String × F.Float))
  unfolding pillar_score
  pillars scores [] = ok []
  pillars scores ((pillar, ids) ∷ mapping) = do
    score ← pillar_score scores ids
    rest ← pillars scores mapping
    ok ((pillar, score) ∷ rest)

  -- The mean of the pillars, or of the controls where there are none.
  unfoldable pub overall_of : List (ControlScore F) → List (String × F.Float) → Py F.Float
  unfolding mean
  overall_of scores [] = mean (map (λ s. s.score) scores)
  overall_of scores (p ∷ ps) = mean (map (λ q. q.1) (p ∷ ps))

  unfoldable pub readiness : F.Float → Readiness
  readiness overall =
      if le (lit 8_500) overall
      then audit_ready
      else if le (lit 7_000) overall
      then substantial_compliance
      else if le (lit 5_000) overall
      then remediation_required
      else critical_gaps

  unfoldable pub critical_of : List (ControlScore F) → List String
  critical_of [] = []
  critical_of (s ∷ scores) =
      let rest = critical_of scores in if is_critical s.status then s.findings ++ rest else rest

  unfoldable pub compute_framework_summary :
      String → String → List (ControlScore F) → PillarMapping → Py (FrameworkSummary F)
  unfolding pillars overall_of readiness critical_of
  compute_framework_summary framework_id framework_name [] mapping = ok (record {
    framework_id = framework_id;
    framework_name = framework_name;
    overall_score = lit 0;
    controls_evaluated = 0;
    controls_passed = 0;
    controls_partial = 0;
    controls_failed = 0;
    readiness_level = no_evidence;
    pillar_scores = [];
    critical_findings = "No evidence has been collected yet." ∷ [];
  })
  compute_framework_summary framework_id framework_name (s ∷ ss) mapping = do
    let scores = s ∷ ss
    pillar_scores ← pillars scores mapping
    overall ← overall_of scores pillar_scores
    ok (record {
      framework_id = framework_id;
      framework_name = framework_name;
      overall_score = round_1 overall;
      controls_evaluated = length scores;
      controls_passed = count (λ c. is_pass c.status) scores;
      controls_partial = count (λ c. is_partial c.status) scores;
      controls_failed = count (λ c. is_failed c.status) scores;
      readiness_level = readiness overall;
      pillar_scores = pillar_scores;
      critical_findings = take 8 (critical_of scores);
    })
