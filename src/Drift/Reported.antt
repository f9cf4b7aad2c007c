-- ===== src/Drift/Reported.antt =====
-- `_compare_collector_metrics` reports the watched metrics that got worse, and nothing else.
use soc2_sentinel.Base.{
  String, ◌≡◌, refl, ap, ◌∙◌, Bool, true, false, List, [], ◌∷◌, ◌++◌, Option, none, some, arith,
  All, if◌then◌else◌,
}
use soc2_sentinel.Python.{Py, ok, Floats, Val, dict, Fields}
use soc2_sentinel.Drift.{
  Operators, DriftItem, increased, percentage_dropped, count_dropped, compare_iam, compare_config,
  compare_encryption, compare_logging, compare_resilience, compare_collector_metrics, is_one_of,
}
use soc2_sentinel.Drift.Watched.{
  Watch, watched, rises, drops, falls, iam_watched, config_watched, encryption_watched,
  logging_watched, resilience_watched, measured, worsened, worse_fields, IsReadable,
}
use soc2_sentinel.Drift.Single.{
  fields_of, Reports, Reports-two, Reports-three, increased-Reports, count_dropped-Reports,
  percentage_dropped-Reports,
}

module _ (F : Floats) (O : Operators F) (c ctrl : Val F.Float) (now : String) where
  module _ (base curr : Fields F.Float) where
    abbrev Readable : List (Watch F) → Type 0
    Readable = All (IsReadable F O base curr)

    worse_fields-one :
        (w : Watch F) (b : Bool)
        → worsened F O base curr w ≡ ok b
        → (if b then w.field_name ∷ [] else []) ≡ worse_fields F O base curr (w ∷ [])
    unfolding worse_fields
    worse_fields-one w true h = ground (arith, h)
    worse_fields-one w false h = ground (arith, h)

    worse_fields-append :
        (ws vs : List (Watch F))
        → worse_fields F O base curr ws ++ worse_fields F O base curr vs
          ≡ worse_fields F O base curr (ws ++ vs)
    unfolding worse_fields
    worse_fields-append [] vs = refl
    worse_fields-append (w ∷ ws) vs = ground (arith, worse_fields-append ws vs)

    abbrev Reported : Py (List (DriftItem F)) → List (Watch F) → Type 0
    Reported m ws = Reports F m (worse_fields F O base curr ws)

    reported :
        {m : Py (List (DriftItem F))} (w : Watch F) (b : Bool)
        → worsened F O base curr w ≡ ok b
        → Reports F m (if b then w.field_name ∷ [] else [])
        → Reported m (w ∷ [])
    reported w b h (items, e, f) = (items, e, f ∙ worse_fields-one w b h)

    increased-Reported :
        (f : String) (g : Option String) (s subject : String)
        → IsReadable F O base curr (rises F f g)
        → Reported
            (increased F O c ctrl now f s subject
              (measured F (rises F f g) base)
              (measured F (rises F f g) curr))
            (rises F f g ∷ [])
    unfolding worsened
    increased-Reported f g s subject r =
        let (b, h) = r.ordered in
        reported (rises F f g) b h (increased-Reports F O c ctrl now f s subject _ _ b h)

    count_dropped-Reported :
        (f : String) (g : Option String) (s subject : String)
        → IsReadable F O base curr (falls F f g)
        → Reported
            (count_dropped F O c ctrl now f s subject
              (measured F (falls F f g) base)
              (measured F (falls F f g) curr))
            (falls F f g ∷ [])
    unfolding worsened
    count_dropped-Reported f g s subject r =
        let (b, h) = r.ordered in
        reported (falls F f g) b h (count_dropped-Reports F O c ctrl now f s subject _ _ b h)

    percentage_dropped-Reported :
        (f : String) (g : Option String) (s subject : String)
        → IsReadable F O base curr (drops F f g)
        → Reported
            (percentage_dropped F O c ctrl now f s subject
              (measured F (drops F f g) base)
              (measured F (drops F f g) curr))
            (drops F f g ∷ [])
    unfolding worsened
    percentage_dropped-Reported f g s subject r =
        let (b, h) = r.ordered in
        reported (drops F f g) b h
          (percentage_dropped-Reports F O c ctrl now f s subject _ _ b h r.shown)

    compare_iam-Reported :
        Readable (iam_watched F) → Reported (compare_iam F O c ctrl now base curr) (iam_watched F)
    unfolding compare_iam measured worse_fields
    compare_iam-Reported (r, (s, (t, _))) =
        Reports-three F (increased-Reported "orphaned_accounts" none "HIGH" "Orphaned accounts" r)
          (percentage_dropped-Reported "mfa_enforced_percentage" (some "mfa_enforcement_percent")
            "CRITICAL" "MFA enforcement" s)
          (increased-Reported "privileged_users" (some "privileged_count") "MEDIUM"
            "Privileged user count" t)
          (ap
              (λ fs.
                fs
                ++ worse_fields F O base curr
                    (rises F "privileged_users" (some "privileged_count") ∷ []))
              (worse_fields-append (rises F "orphaned_accounts" none ∷ [])
                (drops F "mfa_enforced_percentage" (some "mfa_enforcement_percent") ∷ []))
            ∙ worse_fields-append
                (rises F "orphaned_accounts" none
                  ∷ drops F "mfa_enforced_percentage" (some "mfa_enforcement_percent")
                  ∷ [])
                (rises F "privileged_users" (some "privileged_count") ∷ []))

    compare_config-Reported :
        Readable (config_watched F)
        → Reported (compare_config F O c ctrl now base curr) (config_watched F)
    unfolding compare_config measured worse_fields
    compare_config-Reported (r, (s, _)) =
        Reports-two F
          (increased-Reported "open_security_groups" (some "open_http_listeners") "CRITICAL"
            "Open security groups with 0.0.0.0/0 ingress" r)
          (increased-Reported "unapproved_changes_detected" (some "unapproved_changes") "HIGH"
            "Unapproved configuration changes" s)
          (worse_fields-append (rises F "open_security_groups" (some "open_http_listeners") ∷ [])
            (rises F "unapproved_changes_detected" (some "unapproved_changes") ∷ []))

    compare_encryption-Reported :
        Readable (encryption_watched F)
        → Reported (compare_encryption F O c ctrl now base curr) (encryption_watched F)
    unfolding compare_encryption measured worse_fields
    compare_encryption-Reported (r, (s, _)) =
        Reports-two F
          (increased-Reported "unencrypted_data_stores" (some "unencrypted_cui_count") "CRITICAL"
            "Unencrypted data stores" r)
          (percentage_dropped-Reported "encrypted_at_rest_percentage" none "HIGH"
            "Encryption at rest" s)
          (worse_fields-append
            (rises F "unencrypted_data_stores" (some "unencrypted_cui_count") ∷ [])
            (drops F "encrypted_at_rest_percentage" none ∷ []))

    compare_logging-Reported :
        Readable (logging_watched F)
        → Reported (compare_logging F O c ctrl now base curr) (logging_watched F)
    unfolding compare_logging measured worse_fields
    compare_logging-Reported (r, _) =
        percentage_dropped-Reported "critical_events_logged_percentage"
          (some "log_coverage_percent") "HIGH" "Log completeness" r

    compare_resilience-Reported :
        Readable (resilience_watched F)
        → Reported (compare_resilience F O c ctrl now base curr) (resilience_watched F)
    unfolding compare_resilience measured worse_fields
    compare_resilience-Reported (r, _) =
        count_dropped-Reported "successful_backups_24h" (some "backup_jobs_success_30d") "HIGH"
          "Successful backups in 24h" r

    -- One of the tests on the collector.
    either :
        (b : Bool) (m n : Py (List (DriftItem F))) (ws vs : List (Watch F))
        → (Readable ws → Reported m ws)
        → (Readable vs → Reported n vs)
        → Readable (if b then ws else vs)
        → Reported (if b then m else n) (if b then ws else vs)
    either true m n ws vs f g r = f r
    either false m n ws vs f g r = g r

    -- Where the watched metrics of both runs have an order and a text, the comparison returns, and the
    -- fields of its items are those of the watched metrics that got worse, in that order.
    pub compare_collector_metrics-Reported :
        All (IsReadable F O base curr) (watched F c)
        → (items : List (DriftItem F)) × (compare_collector_metrics F O c ctrl now
              (dict base)
              (dict curr)
            ≡ ok items)
          × (fields_of F items ≡ worse_fields F O base curr (watched F c))
    unfolding compare_collector_metrics watched worse_fields
    compare_collector_metrics-Reported =
        either (is_one_of F O c ctrl now "iam_access_review" "CC6.1") _ _ _ _ compare_iam-Reported (
          either (is_one_of F O c ctrl now "config_drift" "CC6.2") _ _ _ _ compare_config-Reported (
            either (is_one_of F O c ctrl now "encryption_status" "C1.2") _ _ _ _
              compare_encryption-Reported
              (either (is_one_of F O c ctrl now "log_aggregator" "CC7.1") _ _ _ _
                compare_logging-Reported
                (either (is_one_of F O c ctrl now "resilience_testing" "A1.2") _ _ _ _
                  compare_resilience-Reported (λ r. ([], refl, refl))))))
