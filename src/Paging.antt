-- ===== src/Paging.antt =====
-- What a listing takes from a request: business/sdk/page/page.go and business/sdk/order/order.go.
-- `strconv.Atoi` is the parameter `atoi`, with `none` for its error.
use logingestor.Prelude.{
  Option-cases, inr, inl, ◌⊎◌, Bool-cases, ◌≡◌, refl, Bool, true, ◌||◌, Option, none, some, List,
  [], ◌∷◌, arith, ◌==◌, if◌then◌else◌,
}
use logingestor.Prelude.Int.{ℤ, pos, leb_ℤ, ltb_ℤ, ◌≤ℤ◌}
use logingestor.Prelude.Text.{Text, codes, text_eq, trim_space}
use logingestor.Prelude.Result.{Result-cases, Result, ok, err, ◌>>=◌}

pub record Page : Type 0 where
  pub number : ℤ
  pub rows : ℤ

pub data PageError : Type 0 where
  page_conversion rows_conversion page_too_small rows_too_small rows_too_large : PageError

abbrev number_or : ℤ → PageError → (Text → Option ℤ) → Text → Result PageError ℤ
number_or default e atoi [] = ok default
number_or default e atoi (c ∷ s) = elim (atoi (c ∷ s)) [ none ↦ err e | some n ↦ ok n ]

unfoldable pub page_of : ℤ → ℤ → Result PageError Page
page_of number rows =
    if leb_ℤ number (pos 0)
    then err page_too_small
    else if leb_ℤ rows (pos 0)
    then err rows_too_small
    else if ltb_ℤ (pos 100) rows
    then err rows_too_large
    else ok (record { number = number; rows = rows })

unfoldable pub parse_page : (Text → Option ℤ) → Text → Text → Result PageError Page
parse_page atoi page rows_per_page = do
  number ← number_or (pos 1) page_conversion atoi page
  rows ← number_or (pos 10) rows_conversion atoi rows_per_page
  page_of number rows

abbrev pub asc : Text
asc = codes "ASC"

abbrev pub desc : Text
desc = codes "DESC"

pub record By : Type 0 where
  pub field : Text
  pub direction : Text

pub data OrderError : Type 0 where
  unknown_order unknown_direction : OrderError

unfoldable pub is_direction : Text → Bool
is_direction d = text_eq d asc || text_eq d desc

unfoldable pub new_by : Text → Text → By
new_by field direction = record {
  field = field;
  direction = (if is_direction direction then direction else asc);
}

-- `fieldMappings[field]`
unfoldable pub column_of : List (Text × Text) → Text → Option Text
column_of [] field = none
column_of ((name, column) ∷ rest) field =
    if text_eq name field then some column else column_of rest field

-- `strings.Split(s, ",")`: the first part, and the parts after it.
unfoldable pub split_comma : Text → Text × List Text
split_comma [] = ([], [])
split_comma (c ∷ s) =
    let (first, others) = split_comma s in
    if c == 44 then ([], first ∷ others) else (c ∷ first, others)

unfoldable pub order_parts : Text → List Text → Result OrderError By
order_parts column [] = ok (new_by column asc)
order_parts column (d ∷ []) =
    if is_direction (trim_space d) then ok (new_by column (trim_space d)) else err unknown_direction
order_parts column (d ∷ e ∷ rest) = err unknown_order

abbrev order_column : Option Text → List Text → Result OrderError By
order_column none others = err unknown_order
order_column (some column) others = order_parts column others

unfoldable pub parse_order : List (Text × Text) → Text → By → Result OrderError By
parse_order mappings [] default = ok default
parse_order mappings (c ∷ s) default =
    let (first, others) = split_comma (c ∷ s) in
    order_column (column_of mappings (trim_space first)) others

page_of_bounds :
    (n m : ℤ) (p : Page)
    → page_of n m ≡ ok p
    → (pos 1 ≤ℤ p.number) × (pos 1 ≤ℤ p.rows) × (p.rows ≤ℤ pos 100)
unfolding page_of
page_of_bounds n m p h = ground arith

-- A page that is parsed starts at one and has between one and a hundred rows.
parse_page_bounds :
    (atoi : Text → Option ℤ) (page rows : Text) (p : Page)
    → parse_page atoi page rows ≡ ok p
    → (pos 1 ≤ℤ p.number) × (pos 1 ≤ℤ p.rows) × (p.rows ≤ℤ pos 100)
unfolding parse_page
parse_page_bounds atoi page rows p h =
    elim (Result-cases (number_or (pos 1) page_conversion atoi page)) [
      | inl (e, q) ↦ absurd (ground (arith, q))
      | inr (n, q) ↦ elim (Result-cases (number_or (pos 10) rows_conversion atoi rows)) [
        | inl (e, r) ↦ absurd (ground (arith, q, r))
        | inr (m, r) ↦ page_of_bounds n m p (ground (arith, q, r))
      ]
    ]

-- The columns of a mapping.
abbrev pub IsListed : List (Text × Text) → Text → Type 0
IsListed [] column = ⊥
IsListed ((name, c) ∷ rest) column = (column ≡ c) ⊎ IsListed rest column

column_of-IsListed :
    (mappings : List (Text × Text)) (field column : Text)
    → column_of mappings field ≡ some column
    → IsListed mappings column
unfolding column_of
column_of-IsListed [] field column h = absurd (ground arith)
column_of-IsListed ((name, c) ∷ rest) field column h = elim (Bool-cases (text_eq name field)) [
  | inl q ↦ inl (ground arith)
  | inr q ↦ inr (column_of-IsListed rest field column (ground arith))
]

asc_known : is_direction asc ≡ true
unfolding is_direction text_eq
asc_known = refl

new_by_known :
    (field direction : Text)
    → ((new_by field direction).field ≡ field)
      × (is_direction (new_by field direction).direction ≡ true)
unfolding new_by
new_by_known field direction = elim (Bool-cases (is_direction direction)) [
  | inl q ↦ (refl, rw q q)
  | inr q ↦ (refl, rw q asc_known)
]

order_parts_known :
    (column : Text) (others : List Text) (by : By)
    → order_parts column others ≡ ok by
    → (by.field ≡ column) × (is_direction by.direction ≡ true)
unfolding order_parts
order_parts_known column [] by h = ground (arith, new_by_known column asc)
order_parts_known column (d ∷ []) by h = ground (arith, new_by_known column (trim_space d))
order_parts_known column (d ∷ e ∷ rest) by h = absurd (ground arith)

-- What reaches the ORDER BY of a listing never comes from the request: an order that is parsed is the
-- default, or names a column of the mapping and one of the two directions.
parse_order_known :
    (mappings : List (Text × Text)) (request : Text) (default by : By)
    → parse_order mappings request default ≡ ok by
    → (by ≡ default) ⊎ (IsListed mappings by.field × (is_direction by.direction ≡ true))
unfolding parse_order
parse_order_known mappings [] default by h = inl (ground arith)
parse_order_known mappings (c ∷ s) default by h =
    let field = trim_space (split_comma (c ∷ s)).0 in
    elim (Option-cases (column_of mappings field)) [
      | inl q ↦ absurd (ground (arith, q))
      | inr (column, q) ↦
          let (same, known) = order_parts_known column (split_comma (c ∷ s)).1 by (rw q at h) in
          inr (rw same (column_of-IsListed mappings field column q), known)
    ]
