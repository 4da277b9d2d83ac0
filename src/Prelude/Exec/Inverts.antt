-- ===== src/Prelude/Exec/Inverts.antt =====
-- What a method that succeeded did on the way.
use logingestor.Prelude.{◌≡◌, refl, arith}
use logingestor.Prelude.Result.{Result, ok, err}
use logingestor.Prelude.Exec.{Exec, continue, ◌>>=◌}

module _ {S E A B : Type 0} where
  continue_ok :
      (r : Result E A) (f : A → Exec S E B) (s : S) (b : B)
      → (continue r f s).0 ≡ ok b
      → (a : A) × (r ≡ ok a) × (continue r f s ≡ f a s)
  continue_ok (ok a) f s b h = (a, refl, refl)
  continue_ok (err e) f s b h = absurd (ground (arith, h))

  -- A chain that succeeded has made its first step, and ends as the rest does.
  pub bind_ok :
      (m : Exec S E A) (f : A → Exec S E B) (s : S) (b : B)
      → ((m >>= f) s).0 ≡ ok b
      → (a : A) × ((m s).0 ≡ ok a) × ((m >>= f) s ≡ f a (m s).1)
  bind_ok m f s b h = continue_ok (m s).0 f (m s).1 b h
