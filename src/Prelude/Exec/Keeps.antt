-- ===== src/Prelude/Exec/Keeps.antt =====
-- What a method leaves true of the state, on success and on every error.
use logingestor.Prelude.{Bool, true, false, Option, none, some}
use logingestor.Prelude.Result.{Result, ok, err}
use logingestor.Prelude.Exec.{Exec, continue, ◌>>=◌, reads, writes, require, or_error}

-- The relation holds between the state before the method and the state after it.
abbrev pub Moves : {S E A : Type 0} → (S → S → Type 0) → Exec S E A → Type 0
Moves {S} R m = (s : S) → R s (m s).1

-- A relation that a chain of steps keeps.
pub record Chains {S : Type 0} (R : S → S → Type 0) : Type 0 where
  pub same : (s : S) → R s s
  pub chain : (a b c : S) → R a b → R b c → R a c

module _ {S E : Type 0} {R : S → S → Type 0} (chains : Chains R) where
  Moves-continue :
      {A B : Type 0} (s : S) (r : Result E A) (f : A → Exec S E B) (s' : S)
      → R s s'
      → ((a : A) → Moves R (f a))
      → R s (continue r f s').1
  Moves-continue s (ok a) f s' h k = chains.chain s s' (f a s').1 h (k a s')
  Moves-continue s (err e) f s' h k = h

  pub Moves-bind :
      {A B : Type 0} (m : Exec S E A) (f : A → Exec S E B)
      → Moves R m
      → ((a : A) → Moves R (f a))
      → Moves R (m >>= f)
  Moves-bind m f h k s = Moves-continue s (m s).0 f (m s).1 (h s) k

  pub Moves-writes : (b : Bool) (e : E) (f : S → S) → ((s : S) → R s (f s)) → Moves R (writes b e f)
  Moves-writes true e f h s = chains.same s
  Moves-writes false e f h s = h s

  pub Moves-reads : {A : Type 0} (b : Bool) (e : E) (f : S → A) → Moves R (reads b e f)
  Moves-reads true e f s = chains.same s
  Moves-reads false e f s = chains.same s

  pub Moves-require : (b : Bool) (e : E) → Moves R (require b e)
  Moves-require true e s = chains.same s
  Moves-require false e s = chains.same s

  pub Moves-or_error : {A : Type 0} (e : E) (o : Option A) → Moves R (or_error e o)
  Moves-or_error e none s = chains.same s
  Moves-or_error e (some a) s = chains.same s
