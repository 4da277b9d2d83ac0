-- ===== src/Examples/Tenants.antt =====
-- Instances of the theorems on sources and on the ingestion.
use logingestor.Prelude.{arith, ◌+◌, ◌≡◌, refl, true, false, none, some, [], ◌∷◌, length, ◌⊎◌}
use logingestor.Prelude.Int.{pos, negsuc}
use logingestor.Prelude.Text.{codes, ascii, text_eq}
use logingestor.Prelude.Result.{err}
use logingestor.Limits.Severity.{level_error}
use logingestor.Sources.Model.{http, Source, SourceEnv, hash_key, generate_key}
use logingestor.Sources.Store.{save, rotate_key, query_by_key_hash, clashes_other}
use logingestor.Sources.Auth.{AuthError, unauthenticated, admit_key}
use logingestor.Sources.Rotate.{rotate_key-revokes}
use logingestor.Sources.Admit.{HasKey, MayWrite}
use logingestor.Ingest.Logfmt.{no_members}
use logingestor.Ingest.Record.{Infra, Record, BulkRecord}
use logingestor.Ingest.Pipeline.{
  IngestState, IngestEnv, refused, process, post_bulk, sample_records,
}
use logingestor.Ingest.Pipeline.Accounts.{Accounts, process-Accounts}
use logingestor.Ingest.Pipeline.Tenant.{AddsOwn, post_bulk-AddsOwn}

-- A digest that is the text itself, and a random part that is the number of sources.
abbrev source_env : SourceEnv
source_env = record {
  fails = λ c. false;
  random_hex = λ sources. some (codes "abcdef01");
  digest = λ s. s;
  fresh = λ sources. length sources;
  unicode = ascii;
  unit = 100;
  org_enabled = λ p. some true;
}

abbrev shipper : Source
shipper = record {
  id = 3;
  org_id = 1;
  project_id = 2;
  kind = http;
  name = codes "edge";
  key_prefix = codes "ls_src_live_000000";
  key_hash = codes "ls_src_live_00000000";
  is_active = true;
  last_seen_at = none;
  rate_limit_per_sec = pos 500;
  rate_limit_burst = pos 1000;
  sample_debug_info = pos 100;
  created_at = 5;
  expires_at = none;
}

abbrev rotated : Source
rotated = record shipper {
  key_prefix = codes "ls_src_live_abcdef";
  key_hash = codes "ls_src_live_abcdef01";
}

rotate_key-revokes_example :
    (admit_key source_env 9
        (codes "ls_src_live_00000000")
        (rotate_key source_env shipper (shipper ∷ [])).1
      ≡ err unauthenticated)
    × ((t : Source) × (query_by_key_hash
            (hash_key source_env (codes "ls_src_live_abcdef01"))
            (rotate_key source_env shipper (shipper ∷ [])).1
          ≡ some t)
        × (t.id ≡ 3))
unfolding rotate_key generate_key save clashes_other hash_key text_eq
rotate_key-revokes_example =
    rotate_key-revokes source_env shipper (shipper ∷ []) rotated (codes "ls_src_live_abcdef01")
      (codes "ls_src_live_00000000") 9 refl refl refl refl ((λ h. absurd (ground (arith, h))), tt)

abbrev no_infra : Infra
no_infra = record {
  host = [];
  container = [];
  pod = [];
  namespace = [];
  cluster = [];
  unit = [];
  facility = [];
  region = [];
  cloud_resource_id = [];
}

abbrev disk_record : Record
disk_record = record {
  level = level_error;
  message = codes "disk full";
  source = codes "kernel";
  timestamp = 7;
  tags = [];
  infra = no_infra;
  attributes = no_members;
}

abbrev disk_line : BulkRecord
disk_line = record {
  level = codes "error";
  message = codes "disk full";
  source = codes "kernel";
  timestamp = none;
  tags = [];
  infra = no_infra;
  attributes = none;
}

abbrev ingest_env : IngestEnv
ingest_env = record {
  sources = source_env;
  body = record {
    codecs = record {
      decoders = record {
        parse_object = λ s. none;
        parse_int = λ s. none;
        parse_float = λ s. none;
      };
      unicode = ascii;
      mask = λ p s. s;
      parse_rfc3339 = λ s. none;
      parse_millis = λ s. none;
    };
    parse_array = λ s. some (disk_line ∷ []);
    parse_record = λ s. some disk_line;
    print_record = λ r. r.message;
  };
  counts_usage = true;
  keeps_rejects = true;
  usage_fails = false;
  quota_fails = false;
  rejects_fail = false;
  touch_fails = false;
  insert_fails = λ ls. false;
  quota = λ org. negsuc 0;
  draw = λ n. 50;
}

abbrev no_logs : IngestState
no_logs = record {
  buckets = [];
  logs = [];
  usage = [];
  rejects = [];
  last_touch = [];
  touches = [];
}

process-Accounts_example :
    Accounts ingest_env shipper 9 [] 20
      (sample_records ingest_env shipper 9 0 (disk_record ∷ [])).0
      (process ingest_env shipper 9 (disk_record ∷ []) [] 20 no_logs).0
      no_logs
      (process ingest_env shipper 9 (disk_record ∷ []) [] 20 no_logs).1
    × (length (sample_records ingest_env shipper 9 0 (disk_record ∷ [])).0
          + (sample_records ingest_env shipper 9 0 (disk_record ∷ [])).1
        ≡ 1)
process-Accounts_example = process-Accounts ingest_env shipper 9 [] 20 (disk_record ∷ []) no_logs

post_bulk-AddsOwn_example :
    ((e : AuthError) × (post_bulk ingest_env 9
          (codes "Bearer ls_src_live_00000000")
          (shipper ∷ [])
          []
          (codes "[1]")
          no_logs
        ≡ (err (refused e), no_logs)))
    ⊎ ((src : Source) × ((HasKey source_env (codes "Bearer ls_src_live_00000000") (shipper ∷ []) src
            × MayWrite source_env 9 src)
          × AddsOwn ingest_env src 9
              (post_bulk ingest_env 9
                (codes "Bearer ls_src_live_00000000")
                (shipper ∷ [])
                []
                (codes "[1]")
                no_logs).0
              no_logs
              (post_bulk ingest_env 9
                (codes "Bearer ls_src_live_00000000")
                (shipper ∷ [])
                []
                (codes "[1]")
                no_logs).1))
post_bulk-AddsOwn_example =
    post_bulk-AddsOwn ingest_env 9 (codes "Bearer ls_src_live_00000000") (shipper ∷ []) []
      (codes "[1]") no_logs
