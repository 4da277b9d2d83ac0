-- ===== src/ClientErrors/Scrub/Lengths.antt =====
-- What a scrubbed report may weigh.
use logingestor.Prelude.{
  ℕ, zero, suc, ◌+◌, ◌-◌, ◌≤◌, ◌≡◌, refl, List, [], ◌∷◌, length, map, arith, All,
}
use logingestor.Prelude.Int.{pos, ◌≤ℤ◌}
use logingestor.Prelude.Text.{Text}
use logingestor.Prelude.Bytes.{byte_length, byte_length-append, fit, byte_length-fit}
use logingestor.ClientErrors.Model.{NewEvent, Breadcrumb}
use logingestor.ClientErrors.Model.{ApiContext}
use logingestor.ClientErrors.Scrub.{scrub_api, map_api}
use logingestor.Prelude.{Option, none, some}
use logingestor.ClientErrors.Scrub.{
  pos, suc, Pattern, truncate, truncation_mark, drop, scrub, last_breadcrumbs, scrub_breadcrumb,
}

-- The mark of a cut text takes fourteen bytes.
pub truncate_le : (s : Text) (n : ℕ) → byte_length (truncate s n) ≤ n + 14
unfolding truncate byte_length
truncate_le s n = ground (arith, byte_length-append (fit n s) truncation_mark, byte_length-fit n s)

length-drop {ℓ} : {A : Type ℓ} (n : ℕ) (xs : List A) → length (drop n xs) ≡ length xs - n
length-drop zero xs = omega arith
length-drop (suc n) [] = omega arith
length-drop (suc n) (x ∷ xs) = omega (arith, length-drop n xs)

length-map {ℓ κ} :
    {A : Type ℓ} {B : Type κ} (f : A → B) (xs : List A) → length (map f xs) ≡ length xs
length-map f [] = refl
length-map f (x ∷ xs) = omega (arith, length-map f xs)

-- The failed request of a report, where it has one.
abbrev pub IsBoundedApi : Option ApiContext → Type 0
IsBoundedApi none = Unit
IsBoundedApi (some a) =
    (byte_length a.method ≤ 24) × (byte_length a.path ≤ 314) × (byte_length a.code ≤ 74)

-- The bounds of a stored report, in bytes.
pub record IsBounded (ne : NewEvent) : Type 0 where
  pub name : byte_length ne.name ≤ 214
  pub message : byte_length ne.message ≤ 1014
  pub stack : byte_length ne.stack ≤ 8014
  pub component_stack : byte_length ne.component_stack ≤ 4014
  pub release : byte_length ne.release ≤ 134
  pub environment : byte_length ne.environment ≤ 74
  pub url : byte_length ne.url ≤ 514
  pub user_agent : byte_length ne.user_agent ≤ 414
  pub api : IsBoundedApi ne.api
  pub crumbs : length ne.breadcrumbs ≤ 30
  pub crumb_texts :
      All (λ c. (byte_length c.category ≤ 54) × (byte_length c.message ≤ 314)) ne.breadcrumbs
  pub sampled : pos 1 ≤ℤ ne.sampled_count

last_breadcrumbs_le : (cs : List Breadcrumb) → length (last_breadcrumbs cs) ≤ 30
unfolding last_breadcrumbs
last_breadcrumbs_le cs = ground (arith, length-drop (length cs - 30) cs)

module _ (replace : Pattern → Text → Text → Text) where
  crumb_texts-bounded :
      (cs : List Breadcrumb)
      → All
          (λ c. (byte_length c.category ≤ 54) × (byte_length c.message ≤ 314))
          (map (scrub_breadcrumb replace) cs)
  unfolding scrub_breadcrumb
  crumb_texts-bounded [] = tt
  crumb_texts-bounded (c ∷ cs) = ((truncate_le _ 40, truncate_le _ 300), crumb_texts-bounded cs)

  api-bounded : (a : Option ApiContext) → IsBoundedApi (map_api replace a)
  unfolding scrub_api
  api-bounded none = tt
  api-bounded (some a) = (truncate_le _ 10, truncate_le _ 300, truncate_le _ 60)

  -- Whatever a report holds, and whatever the patterns match in it, its scrubbed copy is bounded: each
  -- text, also of its failed request and its breadcrumbs, by its limit and the fourteen bytes of the mark, the
  -- trail by thirty breadcrumbs, and the
  -- event stands for at least one occurrence.
  pub scrub-IsBounded : (ne : NewEvent) → IsBounded (scrub replace ne)
  unfolding scrub
  scrub-IsBounded ne = record {
    name = truncate_le _ 200;
    message = truncate_le _ 1000;
    stack = truncate_le _ 8000;
    component_stack = truncate_le _ 4000;
    release = truncate_le _ 120;
    environment = truncate_le _ 60;
    url = truncate_le _ 500;
    user_agent = truncate_le _ 400;
    api = api-bounded ne.api;
    crumbs = omega (
      arith,
      length-map (scrub_breadcrumb replace) (last_breadcrumbs ne.breadcrumbs),
      last_breadcrumbs_le ne.breadcrumbs,
    );
    crumb_texts = crumb_texts-bounded (last_breadcrumbs ne.breadcrumbs);
    sampled = ground arith;
  }
