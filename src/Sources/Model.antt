-- ===== src/Sources/Model.antt =====
-- business/domain/sourcebus/model.go and key.go. A sampling rate is a multiple of 1 / `unit`, as for
-- the sampling decision.
use logingestor.Prelude.{ℕ, Bool, false, Option, none, some, List, take, ◌++◌, if◌then◌else◌}
use logingestor.Prelude.Int.{ℤ, pos}
use logingestor.Prelude.Text.{Text, codes, text_eq, has_prefix, CaseTable}
use logingestor.Prelude.Clock.{Time, before}
use logingestor.Alerting.Model.{Uuid}

pub data SourceKind : Type 0 where
  otel syslog fluentbit vector k8s http : SourceKind

-- `ValidKind`, with the kind that it names.
unfoldable pub valid_kind : Text → Option SourceKind
valid_kind s =
    if text_eq s (codes "otel")
    then some otel
    else if text_eq s (codes "syslog")
    then some syslog
    else if text_eq s (codes "fluentbit")
    then some fluentbit
    else if text_eq s (codes "vector")
    then some vector
    else if text_eq s (codes "k8s")
    then some k8s
    else if text_eq s (codes "http")
    then some http
    else none

unfoldable pub kind_text : SourceKind → Text
kind_text otel = codes "otel"
kind_text syslog = codes "syslog"
kind_text fluentbit = codes "fluentbit"
kind_text vector = codes "vector"
kind_text k8s = codes "k8s"
kind_text http = codes "http"

abbrev pub default_rate_limit_per_sec : ℤ
default_rate_limit_per_sec = pos 500

abbrev pub default_rate_limit_burst : ℤ
default_rate_limit_burst = pos 1000

pub record Source : Type 0 where
  pub id : Uuid
  pub org_id : Uuid
  pub project_id : Uuid
  pub kind : SourceKind
  pub name : Text
  pub key_prefix : Text
  pub key_hash : Text
  pub is_active : Bool
  pub last_seen_at : Option Time
  pub rate_limit_per_sec : ℤ
  pub rate_limit_burst : ℤ
  pub sample_debug_info : ℤ
  pub created_at : Time
  pub expires_at : Option Time

pub record NewSource : Type 0 where
  pub org_id : Uuid
  pub project_id : Uuid
  pub kind : Text
  pub name : Text
  pub expires_at : Option Time

-- `Expired`
abbrev passed : Option Time → Time → Bool
passed none now = false
passed (some t) now = before t now

unfoldable pub expired : Source → Time → Bool
expired s now = passed s.expires_at now

pub data SourceCall : Type 0 where
  insert_source : SourceCall
  save_source touch_source : Uuid → SourceCall
  find_source : Text → SourceCall

pub data SourceError : Type 0 where
  call_failed : SourceCall → SourceError
  invalid_kind duplicate_name key_failed : SourceError

-- Outside the repository: the statements that fail, the hexadecimal form of 32 bytes of crypto/rand, the
-- SHA-256 digest in hexadecimal, `uuid.New()`, the Unicode tables and the unit of a sampling rate. The
-- state of an org is kept by another component.
pub record SourceEnv : Type 0 where
  pub fails : SourceCall → Bool
  pub random_hex : List Source → Option Text
  pub digest : Text → Text
  pub fresh : List Source → Uuid
  pub unicode : CaseTable
  pub unit : ℕ
  pub org_enabled : Uuid → Option Bool

abbrev pub key_scheme : Text
key_scheme = codes "ls_src_live_"

unfoldable pub hash_key : SourceEnv → Text → Text
hash_key env raw = env.digest raw

unfoldable pub has_key_scheme : Text → Bool
has_key_scheme raw = has_prefix raw key_scheme

-- `GenerateKey`: the raw key, its hash and the prefix that is shown.
pub record IngestKey : Type 0 where
  pub raw : Text
  pub key_hash : Text
  pub key_prefix : Text

abbrev key_of : SourceEnv → Text → IngestKey
key_of env hex = record {
  raw = key_scheme ++ hex;
  key_hash = hash_key env (key_scheme ++ hex);
  key_prefix = key_scheme ++ take 6 hex;
}

abbrev key_of_random : SourceEnv → Option Text → Option IngestKey
key_of_random env none = none
key_of_random env (some hex) = some (key_of env hex)

unfoldable pub generate_key : SourceEnv → List Source → Option IngestKey
generate_key env sources = key_of_random env (env.random_hex sources)
