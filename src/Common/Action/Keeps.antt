-- ===== src/Common/Action/Keeps.antt =====
-- What an action may do to the state, as a preorder between the state before and the state after, on
-- every path: returned or thrown.
use lil_bobby_tables_my_crt.Common.Tests.{◌≡◌, refl}
use lil_bobby_tables_my_crt.Common.Exec.{Result, ok, throw}
use lil_bobby_tables_my_crt.Common.Action.{◌>>=◌, pure, Action, continue, reads, lift}

pub record Frame (S : Type 0) : Type 1 where
  pub Rel : S → S → Type 0
  pub reflexive : (s : S) → Rel s s
  pub transitive : {s t u : S} → Rel s t → Rel t u → Rel s u

module _ {S E : Type 0} where
  pub record Keeps (F : Frame S) {A : Type 0} (m : Action S E A) : Type 0 where
    pub run : (s : S) → F.Rel s (m s).1

  continue-Keeps :
      (F : Frame S) {A B : Type 0} (r : Result E A) (f : A → Action S E B) (s : S)
      → ((a : A) → r ≡ ok a → F.Rel s (f a s).1)
      → F.Rel s (continue r f s).1
  continue-Keeps F (ok a) f s h = h a refl
  continue-Keeps F (throw e) f s h = F.reflexive s

  module _ {F : Frame S} where
    pub bind-Keeps :
        {A B : Type 0} {m : Action S E A} {f : A → Action S E B}
        → Keeps F m
        → ((a : A) → Keeps F (f a))
        → Keeps F (m >>= f)
    unfolding ◌>>=◌
    bind-Keeps {m} {f} h k = record {
      run = λ s.
          F.transitive (h.run s) (continue-Keeps F (m s).0 f (m s).1 (λ a _. (k a).run (m s).1));
    }

    -- The rest of a chain may use what was computed.
    pub lift-Keeps :
        {A B : Type 0} {r : Result E A} {f : A → Action S E B}
        → ((a : A) → r ≡ ok a → Keeps F (f a))
        → Keeps F (lift r >>= f)
    unfolding ◌>>=◌
    lift-Keeps {r} {f} h = record { run = λ s. continue-Keeps F r f s (λ a e. (h a e).run s) }

    -- It may use what was read at its state.
    pub reads-Keeps :
        {A B : Type 0} (g : S → Result E A) (f : A → Action S E B)
        → ((s : S) (a : A) → g s ≡ ok a → F.Rel s (f a s).1)
        → Keeps F (reads g >>= f)
    unfolding ◌>>=◌
    reads-Keeps g f h = record { run = λ s. continue-Keeps F (g s) f s (λ a e. h s a e) }

    pub pure-Keeps : {A : Type 0} (a : A) → Keeps F (pure a)
    unfolding pure
    pure-Keeps a = record { run = λ s. F.reflexive s }

    pub reads_last-Keeps : {A : Type 0} (g : S → Result E A) → Keeps F (reads g)
    unfolding reads
    reads_last-Keeps g = record { run = λ s. F.reflexive s }
