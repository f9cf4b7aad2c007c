-- ===== src/Telemetry/Event.antt =====
-- `AuditEvent` of sentinel/telemetry.py and its formats. A timestamp is a number, and its renderings, those
-- of JSON, and the upper and lower case of a text are parameters, as are the host and the process.
use soc2_sentinel.Base.{
  ℕ, ◌+◌, ◌*◌, String, ◌<>◌, [], ◌∷◌, Option, none, some, join, show_nat, str_eq, if◌then◌else◌,
}
use soc2_sentinel.Base.Int.{pos}
use soc2_sentinel.Python.{
  Floats, Val, null, int, str, list, dict, Items, nil, item, Fields, end, field, is_empty,
}
use soc2_sentinel.Auth.{UserIdentity}
use soc2_sentinel.Tenancy.{TenantContext}
use soc2_sentinel.Telemetry.Syslog.{
  SyslogSeverity, severity_code, severity_name, SyslogFacility, facility_code, facility_name,
  name_of_role,
}

-- What a caller passes as `tenant_id`.
pub data TenantArgument (F : Type 0) : Type 0 where
  current_tenant : TenantArgument F
  tenant_named : String → TenantArgument F
  tenant_of : TenantContext F → TenantArgument F

pub record Host (F : Floats) : Type 0 where
  -- `json.dumps(value)`
  pub dumps : Val F.Float → String
  -- `timestamp.isoformat()`, and with `timespec="milliseconds"`
  pub isoformat : ℕ → String
  pub isoformat_milliseconds : ℕ → String
  pub upper : String → String
  pub lower : String → String
  -- `s.replace(" ", "_")`
  pub underscored : String → String
  pub gethostname : String
  pub getpid : ℕ

module _ (F : Floats) where
  pub record AuditEvent : Type 0 where
    pub action : String
    pub resource : String
    pub outcome : String
    pub severity : SyslogSeverity
    pub facility : SyslogFacility
    pub tenant_id : String
    pub user_id : String
    pub role : Option String
    pub details : Fields F.Float
    pub timestamp : ℕ
    pub event_id : String

  abbrev pub tenant_or_current : TenantContext F.Float → TenantArgument F.Float → String
  tenant_or_current tenant current_tenant = tenant.tenant_id
  tenant_or_current tenant (tenant_named name) = name
  tenant_or_current tenant (tenant_of context) = context.tenant_id

  abbrev pub user_or_current : UserIdentity → Option String → String
  user_or_current current none = current.user_id
  user_or_current current (some name) = name

  -- The role is filled in only where the user is.
  abbrev pub role_or_current : UserIdentity → Option String → Option String → Option String
  role_or_current current none none = some (name_of_role current.role)
  role_or_current current none (some name) = some name
  role_or_current current (some _) role = role

  -- The constructor, with what `__post_init__` takes from the context: the current tenant and user.
  unfoldable pub audit_event :
      TenantContext F.Float
      → UserIdentity
      → String
      → String
      → String
      → SyslogSeverity
      → SyslogFacility
      → TenantArgument F.Float
      → Option String
      → Option String
      → Fields F.Float
      → ℕ
      → String
      → AuditEvent
  audit_event tenant current action resource outcome severity facility tenant_id user_id role
        details timestamp event_id =
      record {
        action = action;
        resource = resource;
        outcome = outcome;
        severity = severity;
        facility = facility;
        tenant_id = tenant_or_current tenant tenant_id;
        user_id = user_or_current current user_id;
        role = role_or_current current user_id role;
        details = details;
        timestamp = timestamp;
        event_id = event_id;
      }

  abbrev pub or_fallback : String → String → String
  or_fallback s fallback = if str_eq s "" then fallback else s

  abbrev pub role_or_empty : Option String → String
  role_or_empty none = ""
  role_or_empty (some name) = name

  abbrev pub role_value : Option String → Val F.Float
  role_value none = null
  role_value (some name) = str name

  unfoldable pub priority : AuditEvent → ℕ
  priority event = facility_code event.facility * 8 + severity_code event.severity

  module _ (H : Host F) where
    abbrev pub parameter : String → String → String
    parameter name text = name <> ("=\"" <> (text <> "\""))

    unfoldable pub structured_data : AuditEvent → String
    unfolding join
    structured_data event =
        "[sentinel@54321 "
        <> (join " " (
              parameter "tenant_id" (or_fallback event.tenant_id "unknown")
              ∷ parameter "user_id" (or_fallback event.user_id "anonymous")
              ∷ parameter "role" (or_fallback (role_or_empty event.role) "unknown")
              ∷ parameter "action" event.action
              ∷ parameter "resource" event.resource
              ∷ parameter "outcome" event.outcome
              ∷ parameter "event_id" event.event_id
              ∷ [])
            <> "]")

    abbrev pub message_body : AuditEvent → String
    message_body event =
        if is_empty event.details
        then "Action "
          <> (event.action <> (" on " <> (event.resource <> (" -> " <> event.outcome))))
        else H.dumps (dict event.details)

    unfoldable pub to_rfc5424 : AuditEvent → String
    unfolding show_nat structured_data priority
    to_rfc5424 event =
        "<"
        <> (show_nat (priority event)
            <> (">1 "
                <> (join " " (
                    H.isoformat_milliseconds event.timestamp
                    ∷ or_fallback H.gethostname "-"
                    ∷ "soc2-sentinel"
                    ∷ show_nat H.getpid
                    ∷ H.underscored (H.upper event.action)
                    ∷ structured_data event
                    ∷ message_body event
                    ∷ []))))

    unfoldable pub to_dict : AuditEvent → Fields F.Float
    to_dict event = field "event_id" (str event.event_id) (
        field "timestamp" (str (H.isoformat event.timestamp)) (
          field "action" (str event.action) (
            field "resource" (str event.resource) (
              field "outcome" (str event.outcome) (
                field "severity" (str (severity_name event.severity)) (
                  field "facility" (str (facility_name event.facility)) (
                    field "tenant_id" (str event.tenant_id) (
                      field "user_id" (str event.user_id) (
                        field "role" (role_value event.role)
                          (field "details" (dict event.details) end))))))))))

    abbrev pub roles_of : Option String → Items F.Float
    roles_of none = nil
    roles_of (some name) = if str_eq name "" then nil else item (str name) nil

    unfoldable pub to_ecs : AuditEvent → Fields F.Float
    to_ecs event = field "@timestamp" (str (H.isoformat event.timestamp)) (
        field "event"
          (dict (
            field "id" (str event.event_id) (
              field "action" (str event.action) (
                field "outcome" (str (H.lower event.outcome)) (
                  field "severity" (int (pos (severity_code event.severity))) (
                    field "category" (list (item (str "compliance") (item (str "audit") nil)))
                      (field "kind" (str "event") end)))))))
          (field "user"
            (dict (field "id" (str event.user_id) (field "roles" (list (roles_of event.role)) end)))
            (field "organization" (dict (field "id" (str event.tenant_id) end)) (
              field "service" (dict (field "name" (str "soc2-sentinel") end)) (
                field "sentinel"
                  (dict (
                    field "resource" (str event.resource) (
                      field "facility" (str (facility_name event.facility))
                        (field "details" (dict event.details) end))))
                  end)))))
