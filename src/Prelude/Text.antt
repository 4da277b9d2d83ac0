-- ===== src/Prelude/Text.antt =====
-- Go strings as lists of code points, with what the program uses of package strings.
-- The case tables for the runes above ASCII are Unicode's, generated into Go's library: they are a
-- parameter. White space is `unicode.IsSpace`, written out.
use Prim.Native.Char.{code}
use Prim.Native.String.{String}
use Prim.Native.Nat.{zero, suc, ◌/◌, ◌%◌, ℕ, ◌+◌, ◌-◌}
use mathlib.Core.Path.{◌≡◌, refl, ap₂}
use mathlib.Core.Logic.{◌↔◌}
use mathlib.Core.Bool.{Bool, true, false, ◌&&◌, ◌||◌}
use mathlib.Core.List.{List, [], ◌∷◌, map, reverse}
use native.Mathlib.Omega.{arith}
use logingestor.Prelude.Tests.{ltb, leb, ◌==◌, if◌then◌else◌}

abbrev pub Text : Type 0
Text = List ℕ

abbrev pub codes : String → Text
codes String.[] = []
codes (String.◌∷◌ c s) = code c ∷ codes s

-- `s == t`
unfoldable pub text_eq : Text → Text → Bool
text_eq [] [] = true
text_eq [] (d ∷ t) = false
text_eq (c ∷ s) [] = false
text_eq (c ∷ s) (d ∷ t) = (c == d) && text_eq s t

pub text_eq_sound : (s t : Text) → text_eq s t ≡ true → s ≡ t
unfolding text_eq
text_eq_sound [] [] h = refl
text_eq_sound [] (d ∷ t) h = absurd (ground arith)
text_eq_sound (c ∷ s) [] h = absurd (ground arith)
text_eq_sound (c ∷ s) (d ∷ t) h = ap₂ ◌∷◌ (ground arith) (text_eq_sound s t (ground arith))

pub text_eq_refl : (s : Text) → text_eq s s ≡ true
unfolding text_eq
text_eq_refl [] = refl
text_eq_refl (c ∷ s) = ground (arith, text_eq_refl s)

pub text_eq_iff : (s t : Text) → (text_eq s t ≡ true) ↔ (s ≡ t)
text_eq_iff s t = (text_eq_sound s t, λ e. rw e (text_eq_refl t))

-- Whether a member of the list equals the text.
abbrev pub contains_text : List Text → Text → Bool
contains_text [] s = false
contains_text (t ∷ ts) s = text_eq t s || contains_text ts s

-- `unicode.IsSpace`
unfoldable pub is_space : ℕ → Bool
is_space c =
    leb 9 c && leb c 13
    || c == 32
    || c == 0x85
    || c == 0xA0
    || c == 0x1680
    || leb 0x2000 c && leb c 0x200a
    || c == 0x2028
    || c == 0x2029
    || c == 0x202f
    || c == 0x205f
    || c == 0x3000

pub trim_left : Text → Text
trim_left [] = []
trim_left (c ∷ s) = if is_space c then trim_left s else c ∷ s

-- `strings.TrimSpace`
unfoldable pub trim_space : Text → Text
unfolding trim_left is_space
trim_space s = reverse (trim_left (reverse (trim_left s)))

unfoldable pub has_prefix : Text → Text → Bool
has_prefix s [] = true
has_prefix [] (d ∷ p) = false
has_prefix (c ∷ s) (d ∷ p) = (c == d) && has_prefix s p

-- `strings.Contains`
unfoldable pub contains : Text → Text → Bool
unfolding has_prefix
contains [] p = has_prefix [] p
contains (c ∷ s) p = has_prefix (c ∷ s) p || contains s p

-- Unicode's case tables for the runes from 128 up. `fold` gives one rune for each class of runes
-- that differ by simple case folding.
pub record CaseTable : Type 0 where
  pub lower : ℕ → ℕ
  pub upper : ℕ → ℕ
  pub fold : ℕ → ℕ

module _ (u : CaseTable) where
  unfoldable pub lower_rune : ℕ → ℕ
  lower_rune c = if ltb c 128 then (if leb b'A' c && leb c b'Z' then c + 32 else c) else u.lower c

  unfoldable pub upper_rune : ℕ → ℕ
  upper_rune c = if ltb c 128 then (if leb b'a' c && leb c b'z' then c - 32 else c) else u.upper c

  unfoldable pub fold_rune : ℕ → ℕ
  fold_rune c = if ltb c 128 then (if leb b'A' c && leb c b'Z' then c + 32 else c) else u.fold c

  -- `strings.ToLower`, `strings.ToUpper`, `strings.EqualFold`
  unfoldable pub to_lower : Text → Text
  unfolding lower_rune
  to_lower s = map lower_rune s

  unfoldable pub to_upper : Text → Text
  unfolding upper_rune
  to_upper s = map upper_rune s

  unfoldable pub equal_fold : Text → Text → Bool
  unfolding fold_rune text_eq
  equal_fold s t = text_eq (map fold_rune s) (map fold_rune t)

  pub equal_fold_refl : (s : Text) → equal_fold s s ≡ true
  unfolding equal_fold
  equal_fold_refl s = text_eq_refl (map fold_rune s)

-- The tables of a program that meets ASCII alone.
abbrev pub ascii : CaseTable
ascii = record { lower = λ c. c; upper = λ c. c; fold = λ c. c }

pub text_eq_comm : (s t : Text) → text_eq s t ≡ text_eq t s
unfolding text_eq
text_eq_comm [] [] = refl
text_eq_comm [] (d ∷ t) = refl
text_eq_comm (c ∷ s) [] = refl
text_eq_comm (c ∷ s) (d ∷ t) = ground (arith, text_eq_comm s t)

-- `%d` of a number: its decimal digits, the least significant found first.
decimal_digits : ℕ → ℕ → Text → Text
decimal_digits zero n out = out
decimal_digits (suc fuel) n out =
    let digit : ℕ = b'0' + n % 10 in
    let rest = decimal_digits fuel (n / 10) (digit ∷ out) in
    if n / 10 == 0 then digit ∷ out else rest

unfoldable pub decimal : ℕ → Text
unfolding decimal_digits
decimal n = decimal_digits (suc n) n []

decimal_runs : decimal 1205 ≡ codes "1205"
unfolding decimal
decimal_runs = refl
