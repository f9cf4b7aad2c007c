-- ===== src/Telemetry/Http.antt =====
-- `HttpSink` of sentinel/telemetry.py. What each attempt of a request gives is an argument: the status of
-- the response, or an exception.
use soc2_sentinel.Base.{
  ℕ, zero, suc, String, ◌<>◌, Bool, true, false, ◌&&◌, ◌||◌, List, [], ◌∷◌, ◌++◌, length, ltb, leb,
  ◌==◌, str_eq, if◌then◌else◌,
}
use text.Mathlib.Text.{starts_with}
use soc2_sentinel.Python.{Py, ok, raise, Floats, dict, list, Items, nil, item}
use soc2_sentinel.Telemetry.Event.{AuditEvent, Host, to_dict}

-- What an attempt does: it asks, and after an exception that is not the last attempt's it waits.
pub data Deed : Type 0 where
  requested paused : ℕ → Deed

-- `200 <= resp.status < 300`
abbrev pub is_success : ℕ → Bool
is_success status = leb 200 status && ltb status 300

-- An attempt that gets this response, before so many others that do the rest.
abbrev pub respond_to : ℕ → ℕ → Bool × List Deed → Py ℕ → Bool × List Deed
respond_to left attempt rest (ok status) =
    if is_success status
    then (true, requested attempt ∷ [])
    else (rest.0, requested attempt ∷ rest.1)
respond_to left attempt rest (raise _) =
    (rest.0, requested attempt ∷ (if left == 0 then rest.1 else paused attempt ∷ rest.1))

-- The attempts from this one on, so many of them.
unfoldable pub attempts : ℕ → ℕ → (ℕ → Py ℕ) → Bool × List Deed
attempts zero attempt respond = (false, [])
attempts (suc left) attempt respond =
    respond_to left attempt (attempts left (suc attempt) respond) (respond attempt)

pub record HttpSink : Type 0 where
  pub endpoint_url : String
  pub auth_token : String
  pub max_retries : ℕ
  pub signing_secret : String

-- The headers, where the third argument signs with a secret.
unfoldable pub headers : HttpSink → String → (String → String → String) → List (String × String)
headers sink payload hmac_hex =
    ("Content-Type", "application/json")
    ∷ ("User-Agent", "soc2-sentinel-telemetry/2.5.0")
    ∷ ((if str_eq sink.auth_token ""
          then []
          else ("Authorization", "Bearer " <> sink.auth_token) ∷ [])
        ++ (if str_eq sink.signing_secret ""
            then []
            else ("X-Sentinel-Signature", "sha256=" <> hmac_hex sink.signing_secret payload) ∷ []))

abbrev pub is_web_address : String → Bool
is_web_address url = starts_with url "http://" || starts_with url "https://"

unfoldable pub post : HttpSink → (ℕ → Py ℕ) → Bool × List Deed
unfolding attempts
post sink respond =
    if is_web_address sink.endpoint_url then attempts sink.max_retries 1 respond else (false, [])

module _ (F : Floats) (H : Host F) where
  -- What a request carries for one event and for a batch.
  unfoldable pub payload : AuditEvent F → String
  unfolding to_dict
  payload event = H.dumps (dict (to_dict F H event))

  abbrev pub event_items : List (AuditEvent F) → Items F.Float
  event_items [] = nil
  event_items (event ∷ events) = item (dict (to_dict F H event)) (event_items events)

  unfoldable pub batch_payload : List (AuditEvent F) → String
  batch_payload events = H.dumps (list (event_items events))

  unfoldable pub http_send_batch : List (AuditEvent F) → HttpSink → (ℕ → Py ℕ) → ℕ
  unfolding post
  http_send_batch [] sink respond = 0
  http_send_batch (event ∷ events) sink respond =
      if (post sink respond).0 then length (event ∷ events) else 0
