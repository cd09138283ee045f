-- ===== src/Common/Action.antt =====
-- Calls that read and change a state and may throw. What was changed before a throw stays changed, so
-- the state comes back beside the error too. An awaited promise is a call that returns or rejects.
pub mod Keeps
use lil_bobby_tables_my_crt.Common.Exec.{Result, ok, throw}

abbrev pub Action : Type 0 → Type 0 → Type 0 → Type 0
Action S E A = S → Result E A × S

module _ {S E : Type 0} where
  unfoldable pub pure : {A : Type 0} → A → Action S E A
  pure a s = (ok a, s)

  unfoldable pub raise : {A : Type 0} → E → Action S E A
  raise e s = (throw e, s)

  -- A computation that reads the state and leaves it.
  unfoldable pub reads : {A : Type 0} → (S → Result E A) → Action S E A
  reads f s = (f s, s)

  unfoldable pub lift : {A : Type 0} → Result E A → Action S E A
  lift r s = (r, s)

  -- A change of the state that cannot fail.
  unfoldable pub modify : (S → S) → Action S E (Unit {0})
  modify f s = (ok tt, f s)

  abbrev pub continue : {A B : Type 0} → Result E A → (A → Action S E B) → Action S E B
  continue (ok a) f s = f a s
  continue (throw e) f s = (throw e, s)

  infixl 5 ◌>>=◌ ◌>>◌
  -- To unfold it is to unfold the steps above too.
  unfoldable pub ◌>>=◌ : {A B : Type 0} → Action S E A → (A → Action S E B) → Action S E B
  unfolding pure raise reads lift modify
  ◌>>=◌ m f s = let r = m s in continue r.0 f r.1

  abbrev pub ◌>>◌ : {B : Type 0} → Action S E (Unit {0}) → Action S E B → Action S E B
  m >> n = m >>= λ _. n
