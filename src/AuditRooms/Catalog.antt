-- ===== src/AuditRooms/Catalog.antt =====
-- The criteria and the names of collectors in sentinel/audit_room.py.
use soc2_sentinel.Base.{String, List, [], ◌∷◌, map, str_eq, if◌then◌else◌}

pub record Criterion : Type 0 where
  pub title : String
  pub category : String
  pub required_collectors : List String

abbrev criterion : String → String → List String → Criterion
criterion title category required_collectors = record {
  title = title;
  category = category;
  required_collectors = required_collectors;
}

-- `TSC_CRITERIA_CATALOG`
unfoldable pub catalog : List (String × Criterion)
catalog =
    (
      "CC1.1",
      criterion "Demonstrates Commitment to Integrity and Ethical Values" "Control Environment"
          ("iam_access_review" ∷ "log_aggregator" ∷ "zt_continuous_verification" ∷ []),
    )
    ∷ (
      "CC5.1",
      criterion "Logical Access Control & Authentication Security" "Logical and Physical Access"
          ("iam_access_review" ∷ "zt_continuous_verification" ∷ []),
    )
    ∷ (
      "CC6.1",
      criterion "Restricts Logical Access to Infrastructure and Systems"
          "Logical and Physical Access" ("iam_access_review" ∷ []),
    )
    ∷ (
      "CC6.2",
      criterion "User Registration, De-registration, and Access Provisioning"
          "Logical and Physical Access" ("iam_access_review" ∷ []),
    )
    ∷ (
      "CC6.3",
      criterion "Periodic User Access Review and Revocation" "Logical and Physical Access"
          ("iam_access_review" ∷ []),
    )
    ∷ (
      "CC6.6",
      criterion "Boundary Protection and Network Perimeter Controls" "Logical and Physical Access"
          ("config_drift" ∷ []),
    )
    ∷ (
      "CC6.7",
      criterion "Transmission and Data at Rest Cryptographic Protection"
          "Logical and Physical Access" ("encryption_status" ∷ []),
    )
    ∷ (
      "CC7.1",
      criterion "Infrastructure and Application Logging & Vulnerability Monitoring"
          "System Operations" ("log_aggregator" ∷ "config_drift" ∷ []),
    )
    ∷ (
      "CC7.2",
      criterion "Real-time Monitoring of Anomalies and Security Incidents" "System Operations"
          ("log_aggregator" ∷ []),
    )
    ∷ (
      "CC8.1",
      criterion "Change Management and Separation of Environments" "Change Management"
          ("config_drift" ∷ []),
    )
    ∷ (
      "CC9.2",
      criterion "Vendor Risk and Third-Party Security Management" "Risk Mitigation"
          ("iam_access_review" ∷ "encryption_status" ∷ []),
    )
    ∷ (
      "A1.2",
      criterion "Disaster Recovery, Resilience, and High Availability Backups" "Availability"
          ("resilience_testing" ∷ "retention_check" ∷ []),
    )
    ∷ (
      "C1.2",
      criterion "Confidentiality and Cryptographic Data Key Management" "Confidentiality"
          ("encryption_status" ∷ []),
    )
    ∷ (
      "C1.4",
      criterion "Secure Data Retention and Disposal Schedules" "Confidentiality"
          ("retention_check" ∷ []),
    )
    ∷ []

-- `d.get(key, default)` of a dictionary of constants.
abbrev pub lookup {ℓ} : {A : Type ℓ} → List (String × A) → String → A → A
lookup [] key default = default
lookup (entry ∷ entries) key default =
    let rest = lookup entries key default in if str_eq key entry.0 then entry.1 else rest

unfoldable pub catalog_keys : List String
unfolding catalog
catalog_keys = map (λ entry. entry.0) catalog

unfoldable pub criterion_of : String → Criterion
unfolding catalog
criterion_of control_id =
    lookup catalog control_id (criterion "Custom Control Criterion" "General" [])

-- `COLLECTOR_PRIMARY_CONTROL`
unfoldable pub primary_control : List (String × String)
primary_control =
    ("iam_access_review", "CC6.1")
    ∷ ("identity_iam", "CC6.1")
    ∷ ("config_drift", "CC6.2")
    ∷ ("configuration_drift", "CC6.2")
    ∷ ("log_aggregator", "CC7.1")
    ∷ ("logging_monitoring", "CC7.1")
    ∷ ("encryption_status", "C1.2")
    ∷ ("retention_check", "C1.4")
    ∷ ("retention_schedule", "C1.4")
    ∷ ("resilience_testing", "A1.2")
    ∷ ("resilience_status", "A1.2")
    ∷ ("zt_continuous_verification", "ZT-1")
    ∷ []

-- `COLLECTOR_ALIASES`
unfoldable pub aliases : List (String × List String)
aliases =
    ("identity_iam", "iam_access_review" ∷ "identity_iam" ∷ "CC6.1" ∷ [])
    ∷ ("iam_access_review", "iam_access_review" ∷ "identity_iam" ∷ "CC6.1" ∷ [])
    ∷ ("logging_monitoring", "log_aggregator" ∷ "logging_monitoring" ∷ "CC7.1" ∷ [])
    ∷ ("log_aggregator", "log_aggregator" ∷ "logging_monitoring" ∷ "CC7.1" ∷ [])
    ∷ ("configuration_drift", "config_drift" ∷ "configuration_drift" ∷ "CC6.2" ∷ [])
    ∷ ("config_drift", "config_drift" ∷ "configuration_drift" ∷ "CC6.2" ∷ [])
    ∷ ("encryption_status", "encryption_status" ∷ "C1.2" ∷ [])
    ∷ ("resilience_status", "resilience_testing" ∷ "resilience_status" ∷ "A1.2" ∷ [])
    ∷ ("resilience_testing", "resilience_testing" ∷ "resilience_status" ∷ "A1.2" ∷ [])
    ∷ ("retention_schedule", "retention_check" ∷ "retention_schedule" ∷ "C1.4" ∷ [])
    ∷ ("retention_check", "retention_check" ∷ "retention_schedule" ∷ "C1.4" ∷ [])
    ∷ ("zt_continuous_verification", "zt_continuous_verification" ∷ "ZT-1" ∷ [])
    ∷ []

-- The folders that may hold what a collector found.
unfoldable pub candidate_dirs : String → List String
unfolding primary_control aliases
candidate_dirs collector =
    lookup primary_control collector collector ∷ collector ∷ lookup aliases collector []
