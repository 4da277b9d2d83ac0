-- ===== src/Prelude/Bytes.antt =====
-- The length of a Go string, which counts the bytes of its UTF-8 form, and what the program uses of
-- package strings to cut one up.
use Prim.Native.Nat.{ℕ, ◌+◌, ◌-◌, ◌≤◌}
use mathlib.Core.Path.{◌≡◌}
use mathlib.Core.List.{List, [], ◌∷◌, ◌++◌, reverse}
use native.Mathlib.Omega.{arith}
use logingestor.Prelude.Tests.{ltb, leb, ◌==◌, if◌then◌else◌}
use logingestor.Prelude.Text.{Text}

abbrev pub rune_size : ℕ → ℕ
rune_size c = if ltb c 0x80 then 1 else if ltb c 0x800 then 2 else if ltb c 0x10000 then 3 else 4

-- `len(s)`
unfoldable pub byte_length : Text → ℕ
byte_length [] = 0
byte_length (c ∷ s) = rune_size c + byte_length s

pub byte_length-append : (s t : Text) → byte_length (s ++ t) ≡ byte_length s + byte_length t
unfolding byte_length
byte_length-append [] t = omega arith
byte_length-append (c ∷ s) t = omega (arith, byte_length-append s t)

-- The longest part of whole runes at the front of a text that takes at most `n` bytes.
unfoldable pub fit : ℕ → Text → Text
fit n [] = []
fit n (c ∷ s) = if leb (rune_size c) n then c ∷ fit (n - rune_size c) s else []

pub byte_length-fit : (n : ℕ) (s : Text) → byte_length (fit n s) ≤ n
unfolding byte_length fit
byte_length-fit n [] = omega arith
byte_length-fit n (c ∷ s) = ground (arith, byte_length-fit (n - rune_size c) s)

-- `strings.Split(s, sep)` for a separator of one rune.
abbrev pub join_head : ℕ → List Text → List Text
join_head c [] = (c ∷ []) ∷ []
join_head c (part ∷ parts) = (c ∷ part) ∷ parts

unfoldable pub split_on : ℕ → Text → List Text
split_on sep [] = [] ∷ []
split_on sep (c ∷ s) = let rest = split_on sep s in if c == sep then [] ∷ rest else join_head c rest

-- `strings.Join(parts, sep)`
unfoldable pub join : Text → List Text → Text
join sep [] = []
join sep (part ∷ []) = part
join sep (part ∷ more ∷ parts) = part ++ (sep ++ join sep (more ∷ parts))

-- The part before the first rune `c`, or the whole text.
unfoldable pub before_rune : ℕ → Text → Text
before_rune c [] = []
before_rune c (d ∷ s) = if d == c then [] else d ∷ before_rune c s

-- `s[strings.LastIndexByte(s, c)+1:]`
unfoldable pub after_last : ℕ → Text → Text
after_last c s = reverse (before_rune c (reverse s))
