-- ===== src/Ingest/Body.antt =====
-- `parseRecords` of app/domain/ingestapp/parse.go and the mapping loop of `bulk`: the records of a body
-- and the errors. Package json decodes an array, and one object; a body is a text.
use logingestor.Prelude.{
  ℕ, suc, Bool, not, ◌&&◌, Option, none, some, List, [], ◌∷◌, any, ◌==◌, if◌then◌else◌,
}
use logingestor.Prelude.Text.{Text, codes, trim_space, to_lower, contains}
use logingestor.Prelude.Bytes.{split_on}
use logingestor.Prelude.Clock.{Time}
use logingestor.Sources.Model.{Source}
use logingestor.Ingest.Record.{Record, BulkRecord, IngestCodecs, bulk_to_record}

pub data RejectKind : Type 0 where
  bad_array bad_object bad_line message_missing : RejectKind

-- The text of an error is decided by its kind; the payload is the text that was refused, or the record.
pub record RecordError : Type 0 where
  pub index : ℕ
  pub kind : RejectKind
  pub payload : Text

pub record BodyCodecs : Type 0 where
  pub codecs : IngestCodecs
  pub parse_array : Text → Option (List BulkRecord)
  pub parse_record : Text → Option BulkRecord
  pub print_record : BulkRecord → Text

abbrev one_error : RejectKind → Text → List RecordError
one_error kind payload = record { index = 0; kind = kind; payload = payload } ∷ []

abbrev array_result : Text → Option (List BulkRecord) → List BulkRecord × List RecordError
array_result s none = ([], one_error bad_array s)
array_result s (some rs) = (rs, [])

abbrev object_result : Text → Option BulkRecord → List BulkRecord × List RecordError
object_result s none = ([], one_error bad_object s)
object_result s (some r) = (r ∷ [], [])

-- One line: a blank one is passed over, and a bad one is reported with its number.
abbrev line_result :
    ℕ
    → Text
    → Option BulkRecord
    → List BulkRecord × List RecordError
    → List BulkRecord × List RecordError
line_result i s none (rs, es) = (rs, record { index = i; kind = bad_line; payload = s } ∷ es)
line_result i s (some r) (rs, es) = (r ∷ rs, es)

module _ (b : BodyCodecs) where
  abbrev line_of :
      ℕ → Text → List BulkRecord × List RecordError → List BulkRecord × List RecordError
  line_of i [] rest = rest
  line_of i (c ∷ s) rest = line_result i (c ∷ s) (b.parse_record (c ∷ s)) rest

  unfoldable pub parse_lines : ℕ → List Text → List BulkRecord × List RecordError
  parse_lines i [] = ([], [])
  parse_lines i (line ∷ lines) = line_of i (trim_space line) (parse_lines (suc i) lines)

  abbrev parse_trimmed : Bool → Text → List BulkRecord × List RecordError
  parse_trimmed ndjson [] = ([], [])
  parse_trimmed ndjson (c ∷ s) =
      if not ndjson && c == b'['
      then array_result (c ∷ s) (b.parse_array (c ∷ s))
      else if not ndjson && (c == b'{' && not (any (λ d. d == 10) (c ∷ s)))
      then object_result (c ∷ s) (b.parse_record (c ∷ s))
      else parse_lines 0 (split_on 10 (c ∷ s))

  unfoldable pub parse_records : Text → Text → List BulkRecord × List RecordError
  parse_records content_type body =
      parse_trimmed (contains (to_lower b.codecs.unicode content_type) (codes "ndjson"))
        (trim_space body)

  -- The loop of `bulk`: its errors carry the index among the records that were parsed.
  abbrev map_one :
      ℕ
      → BulkRecord
      → Option Record
      → List Record × List RecordError
      → List Record × List RecordError
  map_one i r none (rs, es) =
      (rs, record { index = i; kind = message_missing; payload = b.print_record r } ∷ es)
  map_one i r (some rec) (rs, es) = (rec ∷ rs, es)

  unfoldable pub map_records : Source → Time → ℕ → List BulkRecord → List Record × List RecordError
  map_records src now i [] = ([], [])
  map_records src now i (r ∷ rs) =
      map_one i r (bulk_to_record b.codecs src r now) (map_records src now (suc i) rs)
