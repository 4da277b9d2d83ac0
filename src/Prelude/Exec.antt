-- ===== src/Prelude/Exec.antt =====
-- A method over a state: it may fail, and what it wrote before stays written.
pub mod Keeps
pub mod Inverts
use mathlib.Core.Bool.{Bool}
use mathlib.Core.Option.{Option, none, some}
use logingestor.Prelude.Result.{Result, ok, err}
use logingestor.Prelude.Tests.{if◌then◌else◌}

abbrev pub Exec : Type 0 → Type 0 → Type 0 → Type 0
Exec S E A = S → Result E A × S

abbrev pub continue : {S E A B : Type 0} → Result E A → (A → Exec S E B) → Exec S E B
continue (ok a) f s = f a s
continue (err e) f s = (err e, s)

infixl 5 ◌>>=◌ ◌>>◌
abbrev pub ◌>>=◌ : {S E A B : Type 0} → Exec S E A → (A → Exec S E B) → Exec S E B
◌>>=◌ m f s = let (r, s') = m s in continue r f s'

abbrev pub ◌>>◌ : {S E B : Type 0} → Exec S E (Unit {0}) → Exec S E B → Exec S E B
m >> k = m >>= λ _. k

abbrev pub pure : {S E A : Type 0} → A → Exec S E A
pure a s = (ok a, s)

abbrev pub raise_error : {S E A : Type 0} → E → Exec S E A
raise_error e s = (err e, s)

-- A statement that answers, and one that writes; the test says whether it fails, with which error.
abbrev pub reads : {S E A : Type 0} → Bool → E → (S → A) → Exec S E A
reads fails e f s = if fails then (err e, s) else (ok (f s), s)

abbrev pub writes : {S E : Type 0} → Bool → E → (S → S) → Exec S E (Unit {0})
writes fails e f s = if fails then (err e, s) else (ok tt, f s)

abbrev pub require : {S E : Type 0} → Bool → E → Exec S E (Unit {0})
require b e s = if b then (ok tt, s) else (err e, s)

abbrev pub or_error : {S E A : Type 0} → E → Option A → Exec S E A
or_error e none s = (err e, s)
or_error e (some a) s = (ok a, s)
