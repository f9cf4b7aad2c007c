-- ===== src/Telemetry/Syslog.antt =====
-- The severities and facilities of sentinel/telemetry.py, and the names of roles that events carry.
use soc2_sentinel.Base.{ℕ, String}
use soc2_sentinel.Auth.{Role}

pub data SyslogSeverity : Type 0 where
  emergency alert critical error warning notice informational debug : SyslogSeverity

abbrev pub severity_code : SyslogSeverity → ℕ
severity_code emergency = 0
severity_code alert = 1
severity_code critical = 2
severity_code error = 3
severity_code warning = 4
severity_code notice = 5
severity_code informational = 6
severity_code debug = 7

abbrev pub severity_name : SyslogSeverity → String
severity_name emergency = "EMERGENCY"
severity_name alert = "ALERT"
severity_name critical = "CRITICAL"
severity_name error = "ERROR"
severity_name warning = "WARNING"
severity_name notice = "NOTICE"
severity_name informational = "INFORMATIONAL"
severity_name debug = "DEBUG"

pub data SyslogFacility : Type 0 where
  kern user mail daemon auth syslog lpr news uucp cron authpriv ftp : SyslogFacility
  local0 local1 local2 local3 local4 local5 local6 local7 : SyslogFacility

abbrev pub facility_code : SyslogFacility → ℕ
facility_code kern = 0
facility_code user = 1
facility_code mail = 2
facility_code daemon = 3
facility_code auth = 4
facility_code syslog = 5
facility_code lpr = 6
facility_code news = 7
facility_code uucp = 8
facility_code cron = 9
facility_code authpriv = 10
facility_code ftp = 11
facility_code local0 = 16
facility_code local1 = 17
facility_code local2 = 18
facility_code local3 = 19
facility_code local4 = 20
facility_code local5 = 21
facility_code local6 = 22
facility_code local7 = 23

abbrev pub facility_name : SyslogFacility → String
facility_name kern = "KERN"
facility_name user = "USER"
facility_name mail = "MAIL"
facility_name daemon = "DAEMON"
facility_name auth = "AUTH"
facility_name syslog = "SYSLOG"
facility_name lpr = "LPR"
facility_name news = "NEWS"
facility_name uucp = "UUCP"
facility_name cron = "CRON"
facility_name authpriv = "AUTHPRIV"
facility_name ftp = "FTP"
facility_name local0 = "LOCAL0"
facility_name local1 = "LOCAL1"
facility_name local2 = "LOCAL2"
facility_name local3 = "LOCAL3"
facility_name local4 = "LOCAL4"
facility_name local5 = "LOCAL5"
facility_name local6 = "LOCAL6"
facility_name local7 = "LOCAL7"

abbrev pub name_of_role : Role → String
name_of_role Role.super_admin = "SUPER_ADMIN"
name_of_role Role.security_admin = "SECURITY_ADMIN"
name_of_role Role.compliance_officer = "COMPLIANCE_OFFICER"
name_of_role Role.auditor = "AUDITOR"
name_of_role Role.system_user = "SYSTEM_USER"
name_of_role Role.viewer = "VIEWER"
name_of_role Role.unauthenticated = "UNAUTHENTICATED"
