-- ===== src/Drift/Items.antt =====
-- `DriftItem` and `DriftReport` of sentinel/drift.py, and Python's own operators on the values of two
-- runs, which are a parameter.
use soc2_sentinel.Base.{ℕ, String, Bool, List, Option}
use soc2_sentinel.Python.{Py, Val, Floats}

pub record Operators (F : Floats) : Type 0 where
  -- `a == b` of two values that a dictionary has as keys
  pub eq : Val F.Float → Val F.Float → Bool
  -- `a < b` and `a > b`; TypeError for values that have no order.
  pub lt : Val F.Float → Val F.Float → Py Bool
  pub gt : Val F.Float → Val F.Float → Py Bool
  -- `f"{v:.1f}"`; ValueError or TypeError for a value that is no number.
  pub show_1 : Val F.Float → Py String

module _ (F : Floats) where
  pub record DriftItem : Type 0 where
    pub collector : Val F.Float
    pub control_id : Val F.Float
    pub field_name : String
    pub baseline_value : Val F.Float
    pub current_value : Val F.Float
    pub severity : String
    pub description : String
    pub timestamp : String

  pub record DriftReport : Type 0 where
    pub timestamp : String
    pub provider : Val F.Float
    pub baseline_date : Option String
    pub current_date : String
    pub drift_detected : Bool
    pub total_drift_items : ℕ
    pub items : List DriftItem
