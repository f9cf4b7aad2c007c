-- ===== src/Telemetry/Tests.antt =====
-- The theorems about sentinel/telemetry.py at small logs, queues and answers.
use soc2_sentinel.Base.{
  ℕ, String, true, List, [], ◌∷◌, ◌++◌, map, none, some, ◌≡◌, refl, ◌↔◌, ◌⊎◌, ◌+◌, ◌≤◌, arith,
  length, reverse, ◌==◌, if◌then◌else◌,
}
use soc2_sentinel.Python.{Py, ok, raise, os_error, end}
use soc2_sentinel.Python.Fixed.{fixed}
use soc2_sentinel.Telemetry.{
  AuditEvent, Host, notice, authpriv, MemorySink, memory_sink, memory_send_batch, Lines, FileSink,
  line_of, file_send_batch, HttpSink, post, is_web_address, SinkClass, Manager, Worker, at_test,
  in_body, steps, shutdown,
}
use soc2_sentinel.Telemetry.Rotation.{history}
use soc2_sentinel.Telemetry.Rotated.{file_send_batch-kept}
use soc2_sentinel.Telemetry.Attempts.{asked, IsAnswered, post-delivered}
use soc2_sentinel.Telemetry.Drained.{busy, IsDrained, steps-IsDrained}
use soc2_sentinel.Telemetry.Undelivered.{shutdown-undelivered}
use soc2_sentinel.Telemetry.Collected.{memory_class, passed, steps-IsRecent}

abbrev host : Host fixed
host = record {
  dumps = λ value. "{}";
  isoformat = λ t. "now";
  isoformat_milliseconds = λ t. "now";
  upper = λ s. s;
  lower = λ s. s;
  underscored = λ s. s;
  gethostname = "host";
  getpid = 7;
}

abbrev event : String → String → AuditEvent fixed
event action tenant_id = record {
  action = action;
  resource = "evidence";
  outcome = "SUCCESS";
  severity = notice;
  facility = authpriv;
  tenant_id = tenant_id;
  user_id = "ada";
  role = none;
  details = end;
  timestamp = 0;
  event_id = "e";
}

abbrev three : List (AuditEvent fixed)
three = event "read" "acme" ∷ event "write" "other" ∷ event "delete" "acme" ∷ []

abbrev ring : MemorySink fixed
ring = (memory_send_batch fixed three (memory_sink fixed 2)).1

abbrev full_file : FileSink fixed host length
full_file = record {
  as_json = true;
  max_bytes = 1;
  backup_count = 1;
  files = λ i. if i == 0 then some ("b" ∷ []) else if i == 1 then some ("a" ∷ []) else none;
}

file_send_batch-kept_example :
    (dropped : Lines) × (dropped
        ++ history 1 (file_send_batch fixed host length (ok tt) three full_file).1.files
      ≡ history 1 full_file.files ++ map (line_of fixed host length true) three)
    × ((dropped ≡ []) ⊎ (dropped ≡ "a" ∷ []))
unfolding file_send_batch
file_send_batch-kept_example =
    file_send_batch-kept fixed host length (event "read" "acme")
      (event "write" "other" ∷ event "delete" "acme" ∷ []) full_file (omega arith)

abbrev siem : HttpSink
siem = record {
  endpoint_url = "https://siem";
  auth_token = "";
  max_retries = 3;
  signing_secret = "";
}

-- The second attempt is answered.
abbrev respond : ℕ → Py ℕ
respond attempt = if attempt == 2 then ok 204 else raise os_error

post-delivered_example :
    (((post siem respond).0 ≡ true)
      ↔ ((is_web_address siem.endpoint_url ≡ true) × IsAnswered 3 1 respond))
    × (asked (post siem respond).1 ≤ 3)
post-delivered_example = post-delivered siem respond

-- Sinks that keep all they are sent.
abbrev kept_class : SinkClass ℕ (List ℕ)
kept_class = record {
  send = λ e s. (ok true, s ++ (e ∷ []));
  send_batch = λ es s. (ok (length es), s ++ es);
  close = λ s. s;
}

abbrev manager : List ℕ → Worker → Manager ℕ (List ℕ) kept_class
manager events worker = record {
  sinks = 0 ∷ 1 ∷ [];
  store = λ ref. [];
  queue = map some events;
  running = true;
  worker = worker;
}

steps-IsDrained_example :
    IsDrained ℕ
      (List ℕ)
      kept_class
      (5 ∷ 6 ∷ [])
      1
      (manager [] at_test)
      (steps ℕ (List ℕ) kept_class 2 (busy ℕ (List ℕ) kept_class (5 ∷ 6 ∷ []) (manager [] at_test)))
steps-IsDrained_example =
    steps-IsDrained ℕ (List ℕ) kept_class 1 (5 ∷ 6 ∷ []) (manager [] at_test) 1 (refl, (refl, tt))
      refl (omega arith)

shutdown-undelivered_example :
    2
    ≤ length
        (steps ℕ
          (List ℕ)
          kept_class
          9
          (shutdown ℕ (List ℕ) kept_class (manager (5 ∷ 6 ∷ []) in_body))).queue
      + 50
shutdown-undelivered_example =
    shutdown-undelivered ℕ (List ℕ) kept_class 9 (manager (5 ∷ 6 ∷ []) in_body) refl

abbrev one_memory : Manager (AuditEvent fixed) (MemorySink fixed) (memory_class fixed)
one_memory = record {
  sinks = 0 ∷ [];
  store = λ ref. memory_sink fixed 2;
  queue = [];
  running = true;
  worker = at_test;
}

steps-IsRecent_example :
    reverse ((passed fixed 1 three one_memory).store 0).events
    ≡ (event "delete" "acme" ∷ event "write" "other" ∷ [])
unfolding steps memory_send_batch
steps-IsRecent_example =
    steps-IsRecent fixed 1 [] three one_memory 0 (refl, tt) refl (omega arith) refl
