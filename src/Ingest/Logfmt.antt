-- ===== src/Ingest/Logfmt.antt =====
-- `SniffMessage` and `parseLogfmt` of business/sdk/ingest/normalize.go. The indices of the loop are its
-- phases, and the text that was passed over since the start of a key or a value is kept reversed; the
-- runes that the loop stops at are of one byte. Package json and strconv are parameters.
use logingestor.Prelude.{
  ℕ, Bool, true, false, ◌&&◌, Option, none, some, [], ◌∷◌, any, ◌==◌, if◌then◌else◌,
}
use logingestor.Prelude.Int.{ℤ}
use logingestor.Prelude.Text.{Text, codes, text_eq, trim_space}
use mathlib.Core.List.{reverse}

-- A decoded JSON value: a float, or null, is a code of its own.
mutual
  pub data Value : Type 0 where
    text_value : Text → Value
    bool_value : Bool → Value
    int_value : ℤ → Value
    other_value : ℕ → Value
    list_value : Items → Value
    map_value : Members → Value

  pub data Items : Type 0 where
    no_items : Items
    item : Value → Items → Items

  pub data Members : Type 0 where
    no_members : Members
    member : Text → Value → Members → Members

pub record Decoders : Type 0 where
  pub parse_object : Text → Option Members
  pub parse_int : Text → Option ℤ
  pub parse_float : Text → Option ℕ

-- `m[k] = v`, and whether there is an `m[k]`.
unfoldable pub has_key : Text → Members → Bool
has_key key no_members = false
has_key key (member k v ms) = if text_eq k key then true else has_key key ms

unfoldable pub set_key : Text → Value → Members → Members
set_key key value no_members = member key value no_members
set_key key value (member k v ms) =
    let rest = set_key key value ms in if text_eq k key then member k value ms else member k v rest

abbrev float_or : Text → Option ℕ → Value
float_or v none = text_value v
float_or v (some f) = other_value f

abbrev int_or : Decoders → Text → Option ℤ → Value
int_or d v none = float_or v (d.parse_float v)
int_or d v (some n) = int_value n

unfoldable pub coerce_scalar : Decoders → Text → Value
coerce_scalar d v =
    if text_eq v (codes "true")
    then bool_value true
    else if text_eq v (codes "false")
    then bool_value false
    else int_or d v (d.parse_int v)

-- Where the loop stands: between two pairs, in a key, after its `=`, in a bare value, in a quoted one
-- and after a backslash in that.
pub data Phase : Type 0 where
  between : Phase
  in_key : Text → Phase
  after_key : Text → Phase
  in_bare in_quotes after_slash : Text → Text → Phase

module _ (d : Decoders) where
  -- The pair ends: its value is the text that was read.
  abbrev add_pair : Text → Text → Members → Members
  add_pair key value fields = set_key (reverse key) (coerce_scalar d (reverse value)) fields

  -- The loop at the end of the text.
  abbrev at_end : Phase → Members → Option Members
  at_end between fields = some fields
  at_end (in_key key) fields = none
  at_end (after_key key) fields = some (add_pair key [] fields)
  at_end (in_bare key value) fields = some (add_pair key value fields)
  at_end (in_quotes key value) fields = some (add_pair key value fields)
  at_end (after_slash key value) fields = some (add_pair key value fields)

  -- One byte: the next phase and the fields, or none where the line is not clean.
  abbrev step : ℕ → Phase → Members → Option (Phase × Members)
  step c between fields =
      if c == b' '
      then some (between, fields)
      else if c == b'='
      then none
      else some (in_key (c ∷ []), fields)
  step c (in_key key) fields =
      if c == b'='
      then some (after_key key, fields)
      else if c == b' '
      then none
      else some (in_key (c ∷ key), fields)
  step c (after_key key) fields =
      if c == b'"'
      then some (in_quotes key [], fields)
      else if c == b' '
      then some (between, add_pair key [] fields)
      else some (in_bare key (c ∷ []), fields)
  step c (in_bare key value) fields =
      if c == b' '
      then some (between, add_pair key value fields)
      else some (in_bare key (c ∷ value), fields)
  step c (in_quotes key value) fields =
      if c == b'"'
      then some (between, add_pair key value fields)
      else if c == 92
      then some (after_slash key (c ∷ value), fields)
      else some (in_quotes key (c ∷ value), fields)
  step c (after_slash key value) fields = some (in_quotes key (c ∷ value), fields)

  unfoldable pub logfmt_from : Phase → Members → Text → Option Members
  logfmt_from phase fields [] = at_end phase fields
  logfmt_from phase fields (c ∷ s) = elim (step c phase fields) [
    | none ↦ none
    | some (p, fs) ↦ logfmt_from p fs s
  ]

  abbrev some_fields : Option Members → Option Members
  some_fields none = none
  some_fields (some no_members) = none
  some_fields (some (member k v ms)) = some (member k v ms)

  unfoldable pub parse_logfmt : Text → Option Members
  parse_logfmt s =
      if any (λ c. c == b'=') s then some_fields (logfmt_from between no_members s) else none

  abbrev last_rune : Text → ℕ
  last_rune [] = 0
  last_rune (c ∷ []) = c
  last_rune (c ∷ e ∷ s) = last_rune (e ∷ s)

  -- A message that looks like an object and is none may still be logfmt.
  abbrev or_logfmt : Text → Option Members → Option Members
  or_logfmt s none = parse_logfmt s
  or_logfmt s (some fields) = some fields

  abbrev sniff_trimmed : Text → Option Members
  sniff_trimmed [] = none
  sniff_trimmed (c ∷ s) =
      if c == b'{' && last_rune (c ∷ s) == b'}'
      then or_logfmt (c ∷ s) (some_fields (d.parse_object (c ∷ s)))
      else parse_logfmt (c ∷ s)

  unfoldable pub sniff_message : Text → Option Members
  sniff_message msg = sniff_trimmed (trim_space msg)
