-- ===== src/Policy/Defaults.antt =====
-- `DEFAULT_ENTERPRISE_RULES` of sentinel/policy/engine.py.
use soc2_sentinel.Base.{true, List, [], ◌∷◌}
use soc2_sentinel.Policy.Rules.{PolicyRule}

abbrev sec_iam_001 : PolicyRule
sec_iam_001 = record {
  rule_id = "SEC-IAM-001";
  name = "MFA Enforcement Across All Console Identities";
  description =
      "Verify that Multi-Factor Authentication is 100% enforced on all human and administrator identities.";
  category = "Security";
  severity = "CRITICAL";
  collector_target = "iam_access_review";
  condition = "mfa_enforced_percentage >= 100.0";
  frameworks =
      ("soc2", "CC6.1" ∷ "CC6.2" ∷ [])
      ∷ ("nist", "3.5.3" ∷ [])
      ∷ ("cmmc", "IA.L2-3.5.3" ∷ [])
      ∷ ("zt", "ZT-01" ∷ [])
      ∷ [];
  remediation_summary =
      "Enable mandatory MFA / WebAuthn conditional access policies across all identity providers.";
  remediation_playbook = "docs/playbooks/iam-mfa-enforcement.md";
  enabled = true;
}

abbrev sec_iam_002 : PolicyRule
sec_iam_002 = record {
  rule_id = "SEC-IAM-002";
  name = "Zero Orphaned Identity Accounts";
  description =
      "Ensure inactive accounts (>90d) are promptly deprovisioned from cloud and identity directories.";
  category = "Security";
  severity = "HIGH";
  collector_target = "iam_access_review";
  condition = "orphaned_accounts == 0";
  frameworks =
      ("soc2", "CC6.1" ∷ [])
      ∷ ("nist", "3.1.1" ∷ "3.1.2" ∷ [])
      ∷ ("cmmc", "AC.L2-3.1.1" ∷ [])
      ∷ ("zt", "ZT-01" ∷ [])
      ∷ [];
  remediation_summary =
      "Deprovision all orphaned users identified in the IAM access review report.";
  remediation_playbook = "docs/playbooks/iam-deprovisioning.md";
  enabled = true;
}

abbrev pub sec_iam_003 : PolicyRule
sec_iam_003 = record {
  rule_id = "SEC-IAM-003";
  name = "Timely Access Review Cadence";
  description = "User access review must be performed within the 90-day SLA window.";
  category = "Security";
  severity = "MEDIUM";
  collector_target = "iam_access_review";
  condition = "review_days <= 90";
  frameworks = ("soc2", "CC6.1" ∷ []) ∷ ("nist", "3.1.2" ∷ []) ∷ ("cmmc", "AC.L2-3.1.2" ∷ []) ∷ [];
  remediation_summary = "Conduct and sign off on a quarterly user access review.";
  remediation_playbook = "docs/playbooks/access-reviews.md";
  enabled = true;
}

abbrev sec_log_001 : PolicyRule
sec_log_001 = record {
  rule_id = "SEC-LOG-001";
  name = "Continuous Immutable Audit Logging Active";
  description =
      "Ensure central audit trails are continuously active and recording control plane events.";
  category = "Security";
  severity = "CRITICAL";
  collector_target = "log_aggregator";
  condition = "log_streams >= 1 and completeness >= 95.0";
  frameworks =
      ("soc2", "CC7.1" ∷ [])
      ∷ ("nist", "3.3.1" ∷ "3.3.2" ∷ [])
      ∷ ("cmmc", "AU.L2-3.3.1" ∷ [])
      ∷ ("zt", "ZT-06" ∷ [])
      ∷ [];
  remediation_summary =
      "Enable multi-region CloudTrail, Azure Activity Log diagnostics, or GCP Audit Logs.";
  remediation_playbook = "docs/playbooks/logging-setup.md";
  enabled = true;
}

abbrev sec_log_002 : PolicyRule
sec_log_002 = record {
  rule_id = "SEC-LOG-002";
  name = "Audit Log Retention Minimum 365 Days";
  description =
      "Audit log stores must enforce retention rules retaining records for at least 1 year.";
  category = "Security";
  severity = "HIGH";
  collector_target = "log_aggregator";
  condition = "retention_days >= 365";
  frameworks = ("soc2", "CC7.1" ∷ []) ∷ ("nist", "3.3.8" ∷ []) ∷ ("cmmc", "AU.L2-3.3.8" ∷ []) ∷ [];
  remediation_summary =
      "Update log group or storage bucket lifecycle to maintain a 365-day retention window.";
  remediation_playbook = "docs/playbooks/log-retention.md";
  enabled = true;
}

abbrev sec_net_001 : PolicyRule
sec_net_001 = record {
  rule_id = "SEC-NET-001";
  name = "Zero Unrestricted Ingress Security Groups";
  description =
      "Security groups must not allow open ingress (0.0.0.0/0) on sensitive administrative ports.";
  category = "Security";
  severity = "CRITICAL";
  collector_target = "config_drift";
  condition = "open_sgs == 0";
  frameworks =
      ("soc2", "CC6.6" ∷ "CC6.2" ∷ [])
      ∷ ("nist", "3.13.1" ∷ [])
      ∷ ("cmmc", "SC.L2-3.13.1" ∷ [])
      ∷ ("zt", "ZT-04" ∷ [])
      ∷ [];
  remediation_summary =
      "Restrict ingress rules to authorized corporate CIDR blocks or VPN gateways.";
  remediation_playbook = "docs/playbooks/network-security.md";
  enabled = true;
}

abbrev sec_cry_001 : PolicyRule
sec_cry_001 = record {
  rule_id = "SEC-CRY-001";
  name = "Universal Encryption at Rest Enforced";
  description =
      "All storage buckets, databases, and block volumes containing sensitive data must be encrypted.";
  category = "Confidentiality";
  severity = "CRITICAL";
  collector_target = "encryption_status";
  condition = "unencrypted_stores == 0 and at_rest_pct >= 100.0";
  frameworks =
      ("soc2", "C1.1" ∷ "C1.2" ∷ [])
      ∷ ("nist", "3.13.16" ∷ [])
      ∷ ("cmmc", "SC.L2-3.13.16" ∷ [])
      ∷ ("zt", "ZT-05" ∷ [])
      ∷ [];
  remediation_summary =
      "Enable KMS/AES-256 encryption on all unencrypted volumes and database instances.";
  remediation_playbook = "docs/playbooks/encryption-at-rest.md";
  enabled = true;
}

abbrev sec_cry_002 : PolicyRule
sec_cry_002 = record {
  rule_id = "SEC-CRY-002";
  name = "TLS 1.2+ Transit Encryption Enforced";
  description =
      "Web services and APIs must enforce modern cryptographic cipher suites and reject TLS < 1.2.";
  category = "Confidentiality";
  severity = "HIGH";
  collector_target = "encryption_status";
  condition = "transit_pct >= 100.0";
  frameworks =
      ("soc2", "C1.2" ∷ [])
      ∷ ("nist", "3.13.8" ∷ [])
      ∷ ("cmmc", "SC.L2-3.13.8" ∷ [])
      ∷ ("zt", "ZT-05" ∷ [])
      ∷ [];
  remediation_summary = "Upgrade load balancer SSL policies to TLS 1.2 or TLS 1.3 only.";
  remediation_playbook = "docs/playbooks/tls-configuration.md";
  enabled = true;
}

abbrev sec_vcs_001 : PolicyRule
sec_vcs_001 = record {
  rule_id = "SEC-VCS-001";
  name = "Branch Protection & Mandatory PR Approvals";
  description =
      "Default production branch must enforce code reviews, approval gates, and status checks.";
  category = "Change Management";
  severity = "CRITICAL";
  collector_target = "github_vcs";
  condition = "branch_protection_enforced == True and required_approvals >= 1";
  frameworks =
      ("soc2", "CC8.1" ∷ []) ∷ ("nist", "3.4.1" ∷ "3.4.2" ∷ []) ∷ ("cmmc", "CM.L2-3.4.1" ∷ []) ∷ [];
  remediation_summary =
      "Configure GitHub branch protection rule requiring pull request approvals before merge.";
  remediation_playbook = "docs/playbooks/vcs-branch-protection.md";
  enabled = true;
}

abbrev sec_vcs_002 : PolicyRule
sec_vcs_002 = record {
  rule_id = "SEC-VCS-002";
  name = "Zero Critical Unresolved Vulnerabilities (SCA)";
  description =
      "Software composition analysis (SCA) must show zero unpatched critical vulnerabilities past SLA.";
  category = "Security";
  severity = "HIGH";
  collector_target = "github_vcs";
  condition = "critical_vulnerabilities == 0";
  frameworks =
      ("soc2", "CC7.1" ∷ []) ∷ ("nist", "3.14.1" ∷ []) ∷ ("cmmc", "SI.L2-3.14.1" ∷ []) ∷ [];
  remediation_summary = "Patch or upgrade vulnerable dependencies flagged by Dependabot/Snyk.";
  remediation_playbook = "docs/playbooks/vulnerability-management.md";
  enabled = true;
}

abbrev sec_res_001 : PolicyRule
sec_res_001 = record {
  rule_id = "SEC-RES-001";
  name = "Verified 24-Hour Backup Execution";
  description = "Automated backup jobs must have successfully completed within the last 24 hours.";
  category = "Availability";
  severity = "HIGH";
  collector_target = "resilience_testing";
  condition = "success_24h >= 1";
  frameworks =
      ("soc2", "A1.2" ∷ [])
      ∷ ("nist", "3.11.1" ∷ [])
      ∷ ("cmmc", "RE.L2-3.11.1" ∷ [])
      ∷ ("zt", "ZT-07" ∷ [])
      ∷ [];
  remediation_summary =
      "Investigate failed backup jobs in AWS Backup / Azure Backup / GCP snapshots.";
  remediation_playbook = "docs/playbooks/backup-recovery.md";
  enabled = true;
}

abbrev sec_res_002 : PolicyRule
sec_res_002 = record {
  rule_id = "SEC-RES-002";
  name = "Periodic Disaster Recovery Restore Testing (90-Day SLA)";
  description =
      "A verified restore test from backup must be recorded within the 90-day SLA window.";
  category = "Availability";
  severity = "HIGH";
  collector_target = "resilience_testing";
  condition = "restore_tested_90d == True";
  frameworks =
      ("soc2", "A1.3" ∷ "A1.2" ∷ []) ∷ ("nist", "3.11.1" ∷ []) ∷ ("cmmc", "RE.L2-3.11.1" ∷ []) ∷ [];
  remediation_summary = "Perform a test restore drill and record completion timestamp in Sentinel.";
  remediation_playbook = "docs/playbooks/restore-drills.md";
  enabled = true;
}

unfoldable pub default_enterprise_rules : List PolicyRule
default_enterprise_rules =
    sec_iam_001 ∷ sec_iam_002 ∷ sec_iam_003 ∷ sec_log_001 ∷ sec_log_002 ∷ sec_net_001 ∷ sec_cry_001
    ∷ sec_cry_002 ∷ sec_vcs_001 ∷ sec_vcs_002 ∷ sec_res_001 ∷ sec_res_002 ∷ []
