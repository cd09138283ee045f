-- ===== src/Service/Http/Keeps.antt =====
-- Handlers that keep a property of the world, whether they return or throw.
use lil_bobby_tables_my_crt.Common.Tests.{
  ℕ, ◌≡◌, refl, Bool, true, false, Option, none, some, List, if◌then◌else◌,
}
use lil_bobby_tables_my_crt.Common.Action.{raise}
use lil_bobby_tables_my_crt.Common.Action.Keeps.{Frame, Keeps}
use lil_bobby_tables_my_crt.Service.Tables.{Tables}
use lil_bobby_tables_my_crt.Service.Http.{World, Failure, Handler, query, required, fail_with}

abbrev pub keeping : (World → Type 0) → Frame World
keeping P = record { Rel = λ w v. P w → P v; reflexive = λ w h. h; transitive = λ f g h. g (f h) }

module _ {P : World → Type 0} {A : Type 0} where
  pub unchanged-Keeps : {m : Handler A} → ((w : World) → (m w).1 ≡ w) → Keeps (keeping P) m
  unchanged-Keeps {m} h = record { run = λ w v. rw (h w) v }

  pub query-Keeps : (f : Tables → A) → Keeps (keeping P) (query f)
  unfolding query
  query-Keeps f = unchanged-Keeps (λ w. refl)

  pub required-Keeps : (e : Failure) (o : Option A) → Keeps (keeping P) (required e o)
  unfolding required
  required-Keeps e none = unchanged-Keeps (λ w. refl)
  required-Keeps e (some a) = unchanged-Keeps (λ w. refl)

  pub raise-Keeps : (e : Failure) → Keeps (keeping P) (raise {S = World} {A = A} e)
  unfolding raise
  raise-Keeps e = unchanged-Keeps (λ w. refl)

  pub fail_with-Keeps : (code : ℕ) (m : List ℕ) → Keeps (keeping P) (fail_with {A = A} code m)
  unfolding fail_with
  fail_with-Keeps code m = unchanged-Keeps (λ w. refl)

  pub if-Keeps :
      (b : Bool) {m n : Handler A}
      → Keeps (keeping P) m
      → Keeps (keeping P) n
      → Keeps (keeping P) (if b then m else n)
  if-Keeps true h k = h
  if-Keeps false h k = k

  -- What comes after a call only changes its result.
  pub same_world-Keeps :
      {B : Type 0} {m : Handler A} {n : Handler B}
      → ((w : World) → (n w).1 ≡ (m w).1)
      → Keeps (keeping P) m
      → Keeps (keeping P) n
  same_world-Keeps h k = record { run = λ w v. rw (h w) (k.run w v) }
