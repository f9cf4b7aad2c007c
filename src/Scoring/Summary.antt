-- ===== src/Scoring/Summary.antt =====
-- What a framework's summary says of the controls that it is computed from.
use soc2_sentinel.Base.{
  ℕ, String, ◌+◌, ◌≤◌, ◌≡◌, refl, ◌≢◌, true, List, [], ◌∷◌, arith, length, count, length-take_le,
}
use soc2_sentinel.Python.{Returns, returned, Returns-then, Floats, IsOrdered}
use soc2_sentinel.Scoring.{Status, pass, partial, fail, not_assessed, ControlScore, band}
use soc2_sentinel.Scoring.Framework.{
  Readiness, no_evidence, critical_gaps, remediation_required, substantial_compliance, audit_ready,
  FrameworkSummary, PillarMapping, is_pass, is_partial, is_failed, pillars, overall_of, readiness,
  critical_of, compute_framework_summary,
}

module _ (F : Floats) where
  -- The counts of a summary cover the controls, and no more than eight findings are listed.
  pub record IsCounted (scores : List (ControlScore F)) (s : FrameworkSummary F) : Type 0 where
    pub every : s.controls_evaluated ≡ length scores
    pub parted : s.controls_passed + s.controls_partial + s.controls_failed ≡ length scores
    pub few : length s.critical_findings ≤ 8
    -- A summary of controls that all pass lists nothing, unless there are none.
    pub clean : scores ≢ [] → s.controls_passed ≡ length scores → s.critical_findings ≡ []

  count_statuses :
      (scores : List (ControlScore F))
      → count (λ c. is_pass c.status) scores
          + count (λ c. is_partial c.status) scores
          + count (λ c. is_failed c.status) scores
        ≡ length scores
  count_statuses [] = refl
  count_statuses (s ∷ ss) = ground (arith, count_statuses ss)

  critical_of-eq-nil :
      (scores : List (ControlScore F))
      → count (λ c. is_pass c.status) scores ≡ length scores
      → critical_of F scores ≡ []
  unfolding critical_of
  critical_of-eq-nil [] h = refl
  critical_of-eq-nil (s ∷ ss) h = ground (arith, critical_of-eq-nil ss, count_statuses ss)

  -- Whatever the controls and the pillars are: a summary that is returned counts every control
  -- once as passed, partial or failed, lists at most eight critical findings, and lists none where
  -- there are controls and all of them pass.
  pub compute_framework_summary-IsCounted :
      (framework_id framework_name : String) (scores : List (ControlScore F))
      (mapping : PillarMapping)
      → Returns
          (IsCounted scores)
          (compute_framework_summary F framework_id framework_name scores mapping)
  unfolding compute_framework_summary
  compute_framework_summary-IsCounted i n [] mapping =
      returned
        (record { every = refl; parted = refl; few = omega arith; clean = λ h _. absurd (h refl) })
  compute_framework_summary-IsCounted i n (s ∷ ss) mapping =
      Returns-then (pillars F (s ∷ ss) mapping) _ λ ps.
        Returns-then (overall_of F (s ∷ ss) ps) _ λ overall. returned (record {
          every = refl;
          parted = count_statuses (s ∷ ss);
          few = length-take_le 8 (critical_of F (s ∷ ss));
          clean = λ _ h. rw (critical_of-eq-nil (s ∷ ss) h);
        })

abbrev pub rank : Readiness → ℕ
rank no_evidence = 0
rank critical_gaps = 1
rank remediation_required = 2
rank substantial_compliance = 3
rank audit_ready = 4

abbrev pub grade : Status → ℕ
grade not_assessed = 0
grade fail = 1
grade partial = 2
grade pass = 3

-- A score that is at least as large never has a lower status or a lower readiness level.
pub band-readiness_mono :
    (F : Floats)
    → IsOrdered F
    → (a b : F.Float) → F.le a b ≡ true
    → (grade (band F a) ≤ grade (band F b)) × (rank (readiness F a) ≤ rank (readiness F b))
unfolding band readiness
band-readiness_mono F L a b h = ground (
  arith,
  L.le_trans (F.lit 8_500) a b,
  L.le_trans (F.lit 7_000) a b,
  L.le_trans (F.lit 5_000) a b,
  L.le_trans (F.lit 5_000) (F.lit 7_000) b,
  L.le_trans (F.lit 5_000) (F.lit 8_500) b,
  L.le_trans (F.lit 7_000) (F.lit 8_500) b,
  L.le-lit 5_000 7_000 (omega arith) (omega arith),
  L.le-lit 5_000 8_500 (omega arith) (omega arith),
  L.le-lit 7_000 8_500 (omega arith) (omega arith),
)
