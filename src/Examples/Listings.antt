-- ===== src/Examples/Listings.antt =====
-- Instances of the theorems on listings.
use logingestor.Prelude.Text.{text_eq, trim_space}
use logingestor.Paging.{page_of, column_of, split_comma, order_parts, new_by}
use logingestor.Prelude.{◌≡◌, refl, none, [], ◌∷◌}
use logingestor.Prelude.Int.{pos}
use logingestor.Prelude.Text.{codes}
use logingestor.Prelude.Result.{ok}
use logingestor.Alerting.Queries.{AlertEventFilter}
use logingestor.Paging.{By, parse_page, parse_order, is_direction, asc, desc}

abbrev whole_org : AlertEventFilter
whole_org = record {
  org_id = 1;
  project_id = none;
  rule_id = none;
  state = none;
  since = none;
  limit = pos 1000;
}

first_page : parse_page (λ s. none) [] [] ≡ ok (record { number = pos 1; rows = pos 10 })
unfolding parse_page page_of
first_page = refl

abbrev by_name : By
by_name = record { field = codes "name"; direction = asc }

abbrev by_date : By
by_date = record { field = codes "date_created"; direction = desc }

ordered :
    parse_order ((codes "date", codes "date_created") ∷ []) (codes "date, DESC") by_name
    ≡ ok by_date
unfolding parse_order column_of text_eq trim_space split_comma order_parts is_direction new_by
ordered = refl
