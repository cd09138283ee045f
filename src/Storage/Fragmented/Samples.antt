-- ===== src/Storage/Fragmented/Samples.antt =====
-- The names of samples (backend-schema.ts), and what is found under a key after one sample was written for
-- each of some times.
use lil_bobby_tables_my_crt.Common.Tests.{
  ℕ, ◌≡◌, refl, sym, ap, ◌∙◌, ◌⊎◌, inl, inr, true, Option, some, List, [], ◌∷◌, ◌++◌, if◌then◌else◌,
  Bool-cases, codes,
}
use lil_bobby_tables_my_crt.Common.Lists.{In, all}
use lil_bobby_tables_my_crt.Common.Exec.{ok}
use mathlib.Core.Option.{some-injective}
use lil_bobby_tables_my_crt.Data.{ChildProgram}
use lil_bobby_tables_my_crt.Storage.Schema.{
  Key, FragmentType, at, timed_name, time_from_key, root_prefix, depot_prefix, single_sample_key,
  strip,
}
use lil_bobby_tables_my_crt.Storage.Schema.Matching.{strip-append, time_from_key-timed_name}
use lil_bobby_tables_my_crt.Storage.Backend.{key_eq, key_eq_iff}

-- The name of a sample tells its time.
timed_name_injective : (t : FragmentType) (m n : ℕ) → timed_name t m ≡ timed_name t n → m ≡ n
unfolding all
timed_name_injective t m n e = injective (
    sym (time_from_key-timed_name t [] m refl)
    ∙ (ap (time_from_key t) e ∙ time_from_key-timed_name t [] n refl))
  where
    injective : at m ≡ at n → m ≡ n
    injective h = cc

module _ (t : FragmentType) (root : Key) where
  abbrev pub depot : Key
  depot = root ++ codes "depot/"

  -- The file of the sample of a time.
  abbrev pub sample_key : ℕ → Key
  sample_key end = depot ++ timed_name t end

  sample_key_injective : (m n : ℕ) → sample_key m ≡ sample_key n → m ≡ n
  sample_key_injective m n e = timed_name_injective t m n (
      some-injective _ _ (
        sym (strip-append depot (timed_name t m))
        ∙ (ap (strip depot) e ∙ strip-append depot (timed_name t n))))

  pub single_sample_key_lem :
      (c : ChildProgram)
      → root_prefix c ≡ ok root
      → (end : ℕ) → single_sample_key t c end ≡ ok (sample_key end)
  unfolding single_sample_key depot_prefix
  single_sample_key_lem c rooted end = rw rooted refl

  module _ {T : Type 0} (sample : ℕ → T) where
    -- What is found under a key after the samples of these times, from what was found before.
    abbrev pub found_after : List ℕ → Key → Option T → Option T
    found_after [] k before = before
    found_after (end ∷ ends) k before =
        found_after ends k (if key_eq (sample_key end) k then some (sample end) else before)

    -- It is what was found before, or one of the samples, under its own key.
    pub found_after-cases :
        (ends : List ℕ) (k : Key) (before : Option T)
        → (found_after ends k before ≡ before)
          ⊎ ((end : ℕ) × In end ends
              × (k ≡ sample_key end)
              × (found_after ends k before ≡ some (sample end)))
    found_after-cases [] k before = inl refl
    found_after-cases (end ∷ ends) k before = elim (Bool-cases (key_eq (sample_key end) k)) [
      | inl p ↦ elim (found_after-cases ends k (some (sample end))) [
        | inl e ↦ inr (end, inl refl, sym ((key_eq_iff (sample_key end) k).0 p), rw p e)
        | inr h ↦ inr (h.0, inr h.1, h.2, rw p h.3)
      ]
      | inr p ↦ elim (found_after-cases ends k before) [
        | inl e ↦ inl (rw p e)
        | inr h ↦ inr (h.0, inr h.1, h.2, rw p h.3)
      ]
    ]

    pub found_after-sample_key :
        (ends : List ℕ) (end : ℕ) (before : Option T)
        → In end ends
        → found_after ends (sample_key end) before ≡ some (sample end)
    found_after-sample_key [] end before i = absurd i
    found_after-sample_key (e ∷ ends) end before (inl same) =
        let written : key_eq (sample_key e) (sample_key end) ≡ true =
          (key_eq_iff (sample_key e) (sample_key end)).1 (ap sample_key (sym same)) in
        elim (found_after-cases ends (sample_key end) (some (sample e))) [
          | inl h ↦ rw written (h ∙ ap (λ n. some (sample n)) (sym same))
          | inr h ↦
              rw written (h.3 ∙ ap (λ n. some (sample n)) (sym (sample_key_injective end h.0 h.2)))
        ]
    found_after-sample_key (e ∷ ends) end before (inr i) =
        found_after-sample_key ends end
          (if key_eq (sample_key e) (sample_key end) then some (sample e) else before) i
