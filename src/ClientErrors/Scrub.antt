-- ===== src/ClientErrors/Scrub.antt =====
-- business/domain/clienterrorbus/scrub.go. The seven patterns are run by package regexp: what
-- `ReplaceAllString` does with each is the parameter `replace`. A text is a valid UTF-8 string, as the
-- JSON decoder makes it, so dropping bytes down to a complete rune leaves the whole runes that fit.
pub mod Lengths
use logingestor.Prelude.{
  suc, ℕ, zero, suc, ◌-◌, Bool, Option, none, some, List, [], ◌∷◌, ◌++◌, map, length, leb, ltb,
  if◌then◌else◌,
}
use logingestor.Prelude.Int.{ℤ, pos, ltb_ℤ}
use logingestor.Prelude.Text.{Text, codes, trim_space}
use logingestor.Prelude.Bytes.{byte_length, fit, before_rune}
use logingestor.ClientErrors.Model.{
  Breadcrumb, ApiContext, NewEvent, max_message_len, max_stack_len, max_component_stack_len,
  max_breadcrumbs, max_breadcrumb_len, max_url_len, max_user_agent_len, max_release_len,
}

pub data Pattern : Type 0 where
  query_string email bearer cookieish our_keys key_value jwt_looking : Pattern

abbrev pub redacted : Text
redacted = codes "[redacted]"

abbrev pub truncation_mark : Text
truncation_mark = codes "…[truncated]"

unfoldable pub truncate : Text → ℕ → Text
truncate s n = if leb (byte_length s) n then s else fit n s ++ truncation_mark

-- The items from index `n` on.
abbrev pub drop {ℓ} : {A : Type ℓ} → ℕ → List A → List A
drop zero xs = xs
drop (suc n) [] = []
drop (suc n) (x ∷ xs) = drop n xs

-- The most recent ones.
unfoldable pub last_breadcrumbs : List Breadcrumb → List Breadcrumb
last_breadcrumbs cs =
    if ltb max_breadcrumbs (length cs) then drop (length cs - max_breadcrumbs) cs else cs

module _ (replace : Pattern → Text → Text → Text) where
  -- The text with every match of the pattern redacted.
  abbrev redact : Pattern → Text → Text
  redact p s = replace p s redacted

  unfoldable pub scrub_text : Text → Text
  scrub_text [] = []
  scrub_text (c ∷ s) = redact email (
      redact key_value
        (redact our_keys (redact cookieish (redact bearer (redact jwt_looking (c ∷ s))))))

  abbrev scrub_trimmed : Text → Text
  scrub_trimmed [] = []
  scrub_trimmed (c ∷ s) = scrub_text (replace query_string (before_rune b'#' (c ∷ s)) [])

  unfoldable pub scrub_url : Text → Text
  scrub_url s = scrub_trimmed (trim_space s)

  unfoldable pub scrub_api : ApiContext → ApiContext
  scrub_api a = record a {
    method = truncate (trim_space a.method) 10;
    path = truncate (scrub_url a.path) 300;
    code = truncate (scrub_text a.code) 60;
  }

  unfoldable pub scrub_breadcrumb : Breadcrumb → Breadcrumb
  scrub_breadcrumb c = record {
    ts = c.ts;
    category = truncate (trim_space c.category) 40;
    message = truncate (scrub_url (scrub_text c.message)) max_breadcrumb_len;
  }

  abbrev pub map_api : Option ApiContext → Option ApiContext
  map_api none = none
  map_api (some a) = some (scrub_api a)

  unfoldable pub scrub : NewEvent → NewEvent
  scrub ne = record ne {
    name = truncate (trim_space ne.name) 200;
    message = truncate (scrub_text ne.message) max_message_len;
    stack = truncate (scrub_text ne.stack) max_stack_len;
    component_stack = truncate (scrub_text ne.component_stack) max_component_stack_len;
    release = truncate (trim_space ne.release) max_release_len;
    environment = truncate (trim_space ne.environment) 60;
    url = truncate (scrub_url ne.url) max_url_len;
    user_agent = truncate (trim_space ne.user_agent) max_user_agent_len;
    api = map_api ne.api;
    breadcrumbs = map scrub_breadcrumb (last_breadcrumbs ne.breadcrumbs);
    sampled_count = (if ltb_ℤ ne.sampled_count (pos 1) then pos 1 else ne.sampled_count);
  }
