-- ===== src/Lib.antt =====
-- SOC 2 Sentinel: scoring of compliance evidence, collection quality, policy rules, drift between runs,
-- the ledger of sealed evidence, permissions and tokens, tenants, access reviews, vendor risk, the
-- collection in the background, manifests of evidence, encryption, rooms for auditors and telemetry.
--
-- The program collects evidence from cloud providers as dictionaries read from JSON. A provider's
-- snapshot carries errors and a quality (`sentinel/providers/_snapshot.py`), which the collector takes
-- into its payload (`sentinel/collectors/_helpers.py`), whose light comes from the metrics
-- (`sentinel/status.py`). The evidence of all collectors is scored by control and by framework
-- (`sentinel/scoring.py`). A run's evidence files are sealed into a tenant's hash-linked ledger, which
-- can be verified (`sentinel/vault.py`). Rules with conditions are evaluated over the same evidence
-- (`sentinel/policy`), and the metrics of two runs are compared (`sentinel/drift.py`). Reviewers decide
-- on access entitlements and sign campaigns (`sentinel/access_review.py`), and vendors are assessed and
-- kept in a register for each tenant (`sentinel/vendor_risk.py`). What a user may do is decided by a
-- matrix of roles and permissions, and who a user is by signed tokens (`sentinel/auth.py`). Tenants have
-- folders of their own (`sentinel/tenancy.py`). A daemon collects at intervals
-- (`sentinel/daemon.py`). The folder of each control's evidence has a manifest of digests
-- (`sentinel/integrity.py`), on which the rooms for external auditors rest, where controls are linked to
-- evidence (`sentinel/audit_room.py`). Evidence can be encrypted (`sentinel/security.py`). What happens is
-- sent to sinks through a queue that a worker thread empties (`sentinel/telemetry.py`).
--
-- Base: Boolean tests, lists, texts and integers over the native numbers.
-- Python: exceptions as values (`Py`), JSON values (`Val`, `Items`, `Fields`), `int()`, `float()`,
-- `bool()`, `min` and `max`. Floats are a parameter, the record `Floats`; nothing is assumed of
-- rounding, and the laws of comparison in `IsOrdered`, named where they are used, also hold for NaN and
-- speak of no literals above `100.0`.
-- Python/Fixed is a concrete instance of hundredths with NaN and infinity, on which tests and witnesses
-- run.
-- Scoring: `ControlScore` and the frame that the seven evaluators share (`evaluate`, `finish`,
-- `cap_partial`, `clamp`, `band`). Scoring/Iam, Logging, Drift, Encryption, Retention, Resilience and
-- ZeroTrust are `_eval_iam` and so on: `read_iam` reads the metrics, `tally_iam` deducts, `eval_iam` is
-- the whole. Scoring/Framework is `_compute_framework_summary`, Scoring/Scorecard is
-- `compute_compliance_scorecard`. Scoring/Evidence is `_read_evidence_dir` over the entries of the
-- evidence directory and of a date's directory, in the order of `iterdir`; whether two keys that are no
-- texts are equal is a parameter.
-- Status: all of `sentinel/status.py`, under the source's names.
-- Collection: `collection_quality`, `finalize_snapshot`, `merge_results`, `apply_collection_metadata`,
-- `worst_status`, `failure_payload`. Lists of errors are lists, as the providers write them.
-- Collection/Export is `sanitize_csv_export` on code points.
-- Vault: Vault/Merkle is `MerkleTree`, Vault/Block `EvidenceBlock`, Vault/Disk
-- `_compute_evidence_merkle_root` over a tree of files, Vault/Ledger `read_chain`, Vault/Seal
-- `seal_run`, Vault/Verify `verify_chain`. SHA-256 is any function from texts to texts, and where a
-- digest could collide the theorem names the collision. The JSON codec of a block, the file system,
-- the clock, and the current user and tenant are parameters. A ledger file is a list of lines that all
-- end in a line break, and file paths are compared as texts. A line whose fields have other types than
-- a block's is one that the codec does not read.
-- Auth: Auth/Identity is roles, permissions, `has_permission` and `assert_permission`, Auth/Secret
-- `get_signing_secret` with the secret of the process as a state, Auth/Token `create_token` and
-- `verify_token` on code points. HMAC, base64, JSON and the clock are the record `Codec`. A name that is
-- an attribute of `Role` but no role, and claims of other types than `create_token` writes, give no
-- identity. Session ids and metadata, which no check reads, are left out.
-- Tenancy: Tenancy/Slug is the regular expression of tenant names, Tenancy/Context `TenantContext` and
-- `tenant_scope`, Tenancy/Storage the paths of `TenantStorageManager`.
-- Daemon: Daemon/State is the state of `ContinuousMonitoringDaemon` with `start` and `stop`, which is two
-- steps around the wait, Daemon/Cycle `_execute_cycle`, Daemon/Threads the interleavings of `_run_loop`
-- with calls from outside, of which any number of calls of `stop` can be under way. Locks are left out,
-- since no step takes two.
-- Policy: Policy/Syntax is the whitelist of `evaluate_condition` over a syntax tree, Policy/Evaluator
-- `_eval_node`, Policy/Rules `sentinel/policy/models.py`, Policy/Defaults the default rules,
-- Policy/Engine `PolicyEngine`. Python's parser, its operators on any two values and `getattr` are a
-- parameter, the record `Runtime`. Displays of dictionaries are left out of the syntax.
-- AccessReview: AccessReview/Campaign is items, campaigns, counts and the command line's `decide`,
-- AccessReview/Signing `complete_and_sign`; the digests are parameters. AccessReview/Lifecycle has the
-- steps of a campaign as a relation, AccessReview/Stored is what is written of a campaign and read back,
-- AccessReview/Manager `AccessReviewManager`, with a folder as the list of its campaign files. Files and
-- the users of the evidence are dictionaries whose fields have the right types.
-- Vendor: Vendor/Questionnaire is `calculate_score`, Vendor/Assessment `evaluate_risk`,
-- Vendor/Register `VendorRiskManager`. All points are whole numbers, so that the floats are integers.
-- The days left until a date are a parameter. A file's records are vendors or raise, and what is
-- written is read back as it was.
-- Drift: Drift/Loading is `_load_run_evidence`, Drift/Metrics `_compare_collector_metrics`,
-- Drift/Detection `detect_configuration_drift`. Comparison and formatting of two values are a parameter,
-- the record `Operators`; a value that cannot be hashed raises as a key. What is handed to the audit log
-- is a result. Drift/Watched has a table of the watched metrics.
-- Integrity: Integrity/Folder is a folder of evidence, Integrity/Manifest `build_manifest`,
-- `write_manifest` and `verify_manifest`, Integrity/Artifact `verify_evidence_tree` and
-- `verify_and_decrypt_artifact`. JSON and HMAC are the record `ManifestCodec`; the key and the time are
-- arguments.
-- AuditRooms: AuditRooms/Catalog is the catalog of criteria and the names of collectors, AuditRooms/Room
-- `AuditRoom`, AuditRooms/Manager `AuditRoomManager` over a store of files by name,
-- AuditRooms/Crosswalk `build_control_crosswalk`, which calls `verify_manifest` of Integrity. What is used
-- of `datetime` is the record `Calendar`. A room file is a JSON dictionary whose fields have the right
-- types. `list_rooms` and the exports are not modelled.
-- Security: Security/Blob is encryption and decryption; the ciphers, UTF-8 and the environment are the
-- records `Crypto` and `Environment`, and the random bytes are arguments. Security/Cells is
-- `sanitize_csv_cell`.
-- Telemetry: Telemetry/Event is `AuditEvent` and its formats, Telemetry/Memory, File and Http the sinks,
-- Telemetry/Dispatch `TelemetryManager`. The files of a `FileSink` are numbered, 0 for the live one. The
-- sinks of a manager are an interface, `SinkClass`, and their states stand in a store by identity. A step
-- of the worker is the test of its loop or a pass through its body; calls of other threads come between
-- two steps. Subscribers, `flush` and the syslog sink are not modelled.
--
-- The only fuel is that of `build_levels`: as many rounds as there are nodes, and every round with two
-- nodes or more leaves fewer of them. The worker of Telemetry, which runs until it is stopped, takes a
-- given number of steps. All else is structural recursion.
--
-- Not modelled: the command line, the dashboard, rendering of reports, notifications, the clouds' SDKs
-- and the network, since these are input and output; the collectors, which put payloads together from
-- snapshots; the audit log (`sentinel/audit.py`), which appends a line of JSON for each event; and
-- validation (`sentinel/schema.py`, `sentinel/validation.py`), where a library checks the JSON schema and
-- the rest tests single fields and names, for the size of the development.
pub mod Base
pub mod Python
pub mod Scoring
pub mod Status
pub mod Collection
pub mod Auth
pub mod Vault
pub mod Policy
pub mod AccessReview
pub mod Vendor
pub mod Drift
pub mod Tenancy
pub mod Daemon
pub mod Integrity
pub mod Telemetry
pub mod AuditRooms
pub mod Security
