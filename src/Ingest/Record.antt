-- ===== src/Ingest/Record.antt =====
-- The normalized record and its way into a log: business/sdk/ingest/normalize.go and redact.go,
-- `bulkToRecord`, `recordToNewLog` and the helpers of app/domain/ingestapp. The six expressions of the
-- redactor are run by package regexp, and a time is parsed by package time: both are parameters.
use logingestor.Prelude.{
  ℕ, ◌+◌, ◌*◌, Bool, true, false, Option, none, some, List, [], ◌∷◌, ◌==◌, if◌then◌else◌,
}
use logingestor.Prelude.Text.{Text, codes, text_eq, trim_space, to_upper, CaseTable}
use logingestor.Prelude.Clock.{Time, hour, before}
use logingestor.Alerting.Model.{Uuid}
use logingestor.Limits.Severity.{Level, level_debug, level_info, level_warn, level_error}
use logingestor.Sources.Model.{Source, kind_text}
use logingestor.Ingest.Logfmt.{
  Value, text_value, bool_value, int_value, other_value, list_value, map_value, Items, no_items,
  item, Members, no_members, member, Decoders, has_key, set_key, sniff_message,
}

pub data SecretPattern : Type 0 where
  email_like address_like card_like bearer_like key_like secret_like : SecretPattern

pub record Infra : Type 0 where
  pub host : Text
  pub container : Text
  pub pod : Text
  pub namespace : Text
  pub cluster : Text
  pub unit : Text
  pub facility : Text
  pub region : Text
  pub cloud_resource_id : Text

pub record Record : Type 0 where
  pub level : Level
  pub message : Text
  pub source : Text
  pub timestamp : Time
  pub tags : List Text
  pub infra : Infra
  pub attributes : Members

-- `logbus.NewLog` of an infrastructure log.
pub record NewLog : Type 0 where
  pub project_id : Uuid
  pub level : Level
  pub message : Text
  pub source : Text
  pub timestamp : Time
  pub tags : List Text
  pub source_id : Uuid
  pub infra : Infra
  pub attributes : Members

-- What a sender may write; `none` is an absent timestamp or absent attributes.
pub record BulkRecord : Type 0 where
  pub level : Text
  pub message : Text
  pub source : Text
  pub timestamp : Option Text
  pub tags : List Text
  pub infra : Infra
  pub attributes : Option Members

pub record IngestCodecs : Type 0 where
  pub decoders : Decoders
  pub unicode : CaseTable
  pub mask : SecretPattern → Text → Text
  pub parse_rfc3339 : Text → Option Time
  pub parse_millis : Text → Option Time

-- `RedactString`: the expressions in their order.
module _ (mask : SecretPattern → Text → Text) where
  unfoldable pub redact_string : Text → Text
  redact_string [] = []
  redact_string (c ∷ s) = mask secret_like (
      mask key_like
        (mask bearer_like (mask card_like (mask address_like (mask email_like (c ∷ s))))))

  unfoldable mutual
    pub redact_value : Value → Value
    redact_value (text_value s) = text_value (redact_string s)
    redact_value (bool_value b) = bool_value b
    redact_value (int_value n) = int_value n
    redact_value (other_value n) = other_value n
    redact_value (list_value vs) = list_value (redact_items vs)
    redact_value (map_value ms) = map_value (redact_map ms)

    pub redact_items : Items → Items
    redact_items no_items = no_items
    redact_items (item v vs) = item (redact_value v) (redact_items vs)

    pub redact_map : Members → Members
    redact_map no_members = no_members
    redact_map (member k v ms) = member k (redact_value v) (redact_map ms)

abbrev pub max_future_skew : ℕ
max_future_skew = 24 * hour

unfoldable pub normalize_timestamp : Time → Time → Time
normalize_timestamp ts now =
    if ts == 0 then now else if before (now + max_future_skew) ts then now else ts

-- The fields of the message that the sender did not set.
unfoldable pub lift_fields : Members → Members → Members
lift_fields no_members attrs = attrs
lift_fields (member k v ms) attrs =
    lift_fields ms (if has_key k attrs then attrs else set_key k v attrs)

abbrev lift_some : Option Members → Members → Members
lift_some none attrs = attrs
lift_some (some fields) attrs = lift_fields fields attrs

-- `Normalize`
unfoldable pub normalize : IngestCodecs → Time → Record → Record
normalize c now r = record r {
  timestamp = normalize_timestamp r.timestamp now;
  message = redact_string c.mask r.message;
  attributes = redact_map c.mask (lift_some (sniff_message c.decoders r.message) r.attributes);
}

unfoldable pub parse_level : Text → Option Level
parse_level s =
    if text_eq s (codes "DEBUG")
    then some level_debug
    else if text_eq s (codes "INFO")
    then some level_info
    else if text_eq s (codes "WARN")
    then some level_warn
    else if text_eq s (codes "ERROR")
    then some level_error
    else none

unfoldable pub normalize_level : CaseTable → Text → Text
normalize_level u s = to_upper u (trim_space s)

abbrev time_or : Option Time → Time → Time
time_or none now = now
time_or (some t) now = t

abbrev first_time : Option Time → Option Time → Time → Time
first_time (some t) o now = t
first_time none o now = time_or o now

unfoldable pub parse_timestamp : IngestCodecs → Option Text → Time → Time
parse_timestamp c none now = now
parse_timestamp c (some []) now = now
parse_timestamp c (some (d ∷ s)) now =
    first_time (c.parse_rfc3339 (d ∷ s)) (c.parse_millis (d ∷ s)) now

abbrev level_or : Option Level → Level
level_or none = level_info
level_or (some l) = l

-- An empty level reads as one that is not known.
abbrev source_or : Text → Text → Text
source_or [] fallback = fallback
source_or (c ∷ s) fallback = c ∷ s

abbrev members_or : Option Members → Members
members_or none = no_members
members_or (some ms) = ms

abbrev record_of : IngestCodecs → Source → BulkRecord → Time → Record
record_of c src r now = record {
  level = level_or (parse_level (normalize_level c.unicode r.level));
  message = r.message;
  source = source_or r.source (kind_text src.kind);
  timestamp = parse_timestamp c r.timestamp now;
  tags = r.tags;
  infra = r.infra;
  attributes = members_or r.attributes;
}

abbrev is_blank : Text → Bool
is_blank [] = true
is_blank (c ∷ s) = false

-- `none` says that the message is required.
unfoldable pub bulk_to_record : IngestCodecs → Source → BulkRecord → Time → Option Record
bulk_to_record c src r now = if is_blank r.message then none else some (record_of c src r now)

unfoldable pub record_to_new_log : Source → Record → NewLog
record_to_new_log src r = record {
  project_id = src.project_id;
  level = r.level;
  message = r.message;
  source = r.source;
  timestamp = r.timestamp;
  tags = r.tags;
  source_id = src.id;
  infra = r.infra;
  attributes = r.attributes;
}
