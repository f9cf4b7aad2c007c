-- ===== src/Scoring.antt =====
-- sentinel/scoring.py: the data classes, and the shape that the seven `_eval_…` functions share.
pub mod Iam
pub mod Logging
pub mod Drift
pub mod Encryption
pub mod Retention
pub mod Resilience
pub mod ZeroTrust
pub mod Evidence
pub mod Sourced
pub mod Backed
pub mod Overwritten
pub mod Framework
pub mod Scorecard
pub mod Bounds
pub mod Findings
pub mod Reported
pub mod Sound
pub mod Summary
pub mod Coverage
pub mod Extremes
mod Tests
use soc2_sentinel.Base.{String, ◌<>◌, Bool, true, false, Option, none, some, List, [], ◌∷◌, ◌++◌}
use soc2_sentinel.Base.Int.{ℤ}
use soc2_sentinel.Base.{if◌then◌else◌}
use soc2_sentinel.Python.{
  Py, ok, raise, key_error, type_error, ◌>>=◌, Val, null, bool, int, float, str, list, dict, Items,
  nil, item, Fields, end, field, get, is_text, as_dict, is_empty, Floats, truthy, min, max, or_else,
  to_int, to_float,
}

-- The values of the field `status` of a control.
pub data Status : Type 0 where
  pass partial fail not_assessed : Status

-- The dictionary of the frameworks that a control belongs to.
abbrev pub Frameworks : Type 0
Frameworks = List (String × String)

-- What each `_eval_…` function writes out again in each of its three results.
pub record Control : Type 0 where
  pub control_id : String
  pub name : String
  pub category : String
  pub frameworks : Frameworks
  pub no_evidence : String
  pub failed_default : String
  pub partial_evidence : String

pub record ControlScore (F : Floats) : Type 0 where
  pub control_id : String
  pub name : String
  pub category : String
  pub status : Status
  pub score : F.Float
  pub evidence_quality : Val F.Float
  pub findings : List String
  pub metrics_summary : Fields F.Float
  pub frameworks : Frameworks

-- The variables `score` and `findings` while a control is assessed.
pub record Tally (F : Floats) : Type 0 where
  pub score : F.Float
  pub findings : List String

pub record Assessment (F : Floats) : Type 0 where
  pub tally : Tally F
  pub summary : Fields F.Float

module _ (F : Floats) where
  unfoldable pub safe_float : Val F.Float → F.Float → Py F.Float
  safe_float v default = or_else (to_float F v) default

  unfoldable pub safe_int : Val F.Float → ℤ → Py ℤ
  safe_int v default = or_else (to_int F v) default

  -- `score = 100.0; findings = []`
  unfoldable pub full_marks : Tally F
  full_marks = record { score = F.lit 10_000; findings = [] }

  -- `score -= amount; findings.append(message)`
  unfoldable pub charge : F.Float → String → Tally F → Tally F
  charge amount message t = record {
    score = F.sub t.score amount;
    findings = t.findings ++ (message ∷ []);
  }

  -- `if test: …`, where the amount and the message are computed under the test.
  unfoldable pub charge_if : Bool → Py (F.Float × String) → Tally F → Py (Tally F)
  charge_if true cost t = cost >>= λ (amount, message). ok (charge amount message t)
  charge_if false cost t = ok t

  -- `if test: findings.append(message)`
  unfoldable pub note_if : Bool → String → Tally F → Tally F
  note_if true message t = record t { findings = t.findings ++ (message ∷ []) }
  note_if false message t = t

  unfoldable pub unassessed : Control → ControlScore F
  unassessed c = record {
    control_id = c.control_id;
    name = c.name;
    category = c.category;
    status = not_assessed;
    score = F.lit 0;
    evidence_quality = str "none";
    findings = c.no_evidence ∷ [];
    metrics_summary = end;
    frameworks = c.frameworks;
  }

  -- `errors[0]`, put into a text
  unfoldable pub first_of : Val F.Float → Py String
  first_of (list (item e es)) = ok (F.show e)
  first_of (str (String.◌∷◌ c s)) = ok (String.◌∷◌ c String.[])
  first_of (dict _) = raise key_error
  first_of _ = raise type_error

  -- `data.get("errors", […])[0] if data.get("errors") else …`, where the default is never used.
  unfoldable pub first_error : Control → Fields F.Float → Py String
  unfolding first_of
  first_error c evidence =
      let errors = get evidence "errors" null in
      if truthy F errors then first_of errors else ok c.failed_default

  unfoldable pub failed_collection : Control → String → ControlScore F
  failed_collection c message = record {
    control_id = c.control_id;
    name = c.name;
    category = c.category;
    status = fail;
    score = F.lit 0;
    evidence_quality = str "failed";
    findings = ("Evidence collection failed: " <> message) ∷ [];
    metrics_summary = end;
    frameworks = c.frameworks;
  }

  -- `"PASS" if score >= 85.0 else ("PARTIAL" if score >= 50.0 else "FAIL")`
  unfoldable pub band : F.Float → Status
  band score =
      if F.le (F.lit 8_500) score then pass else if F.le (F.lit 5_000) score then partial else fail

  -- `if quality == "partial": score = min(70.0, score); findings.append(…)`
  unfoldable pub cap_partial : Control → Val F.Float → Tally F → Tally F
  cap_partial c quality t =
      if is_text quality "partial"
      then record {
        score = min F (F.lit 7_000) t.score;
        findings = t.findings ++ (c.partial_evidence ∷ []);
      }
      else t

  -- `max(0.0, min(100.0, score))`
  unfoldable pub clamp : F.Float → F.Float
  clamp score = max F (F.lit 0) (min F (F.lit 10_000) score)

  -- From the test for partial evidence to the end of each `_eval_…` function.
  unfoldable pub finish : Control → Val F.Float → Assessment F → ControlScore F
  finish c quality a =
      let t = cap_partial c quality a.tally in
      let score = clamp t.score in
      record {
        control_id = c.control_id;
        name = c.name;
        category = c.category;
        status = band score;
        score = score;
        evidence_quality = quality;
        findings = t.findings;
        metrics_summary = a.summary;
        frameworks = c.frameworks;
      }

  -- An `_eval_…` function. `assess` is what it does between the two early returns and `finish`;
  -- it is given the evidence and its metrics.
  unfoldable pub evaluate :
      Control
      → (Fields F.Float → Fields F.Float → Py (Assessment F))
      → Option (Fields F.Float)
      → Py (ControlScore F)
  evaluate c assess none = ok (unassessed c)
  evaluate c assess (some evidence) =
      let quality = get evidence "collection_quality" (str "unknown") in
      if is_empty evidence
      then ok (unassessed c)
      else if is_text quality "failed"
      then first_error c evidence >>= (λ message. ok (failed_collection c message))
      else (do
        metrics ← as_dict (get evidence "metrics" (dict end))
        a ← assess evidence metrics
        ok (finish c quality a))
