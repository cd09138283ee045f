-- ===== src/Storage/Schema/Directories.antt =====
-- The directories of the child programs (backend-schema.ts): every key's time is read back, and no
-- file of one program lies in the directory of another.
use lil_bobby_tables_my_crt.Common.Tests.{
  ℕ, ◌≡◌, refl, sym, ap, ◌∙◌, Bool, true, not, Option, none, some, [], ◌∷◌, ◌++◌, arith, codes,
}
use lil_bobby_tables_my_crt.Common.Exec.{ok_injective, >>=-eq-ok, ok}
use lil_bobby_tables_my_crt.Common.Lists.{all}
use lil_bobby_tables_my_crt.Common.Digits.{
  decimal, parse_int, parse_int-decimal, AllDigits, reverse-decimal-AllDigits,
}
use mathlib.Core.List.{reverse_aux, reverse, reverse-reverse, append_assoc}
use lil_bobby_tables_my_crt.Data.{type_eq, ChildProgramType, capture, replay, mimic, ChildProgram}
use lil_bobby_tables_my_crt.Storage.Schema.{
  Key, FragmentType, in_progress_key, single_sample_key, root_prefix, depot_prefix, show,
  child_process_type_to_string, take_digits, drop_digits, is_line_end, time_from_key, at,
}
use lil_bobby_tables_my_crt.Storage.Schema.Matching.{
  OneLine, time_from_key-timed_name, take_digits-append, drop_digits-append,
}

all-append : (f : ℕ → Bool) (s t : Key) → all f s ≡ true → all f t ≡ true → all f (s ++ t) ≡ true
unfolding all
all-append f [] t h k = k
all-append f (c ∷ s) t h k = ground (arith, all-append f s t)

AllDigits-OneLine : (s : Key) → AllDigits s → OneLine s
unfolding all
AllDigits-OneLine [] h = refl
AllDigits-OneLine (c ∷ s) (p, h) = ground (arith, AllDigits-OneLine s h)

All-reverse_aux : (s t : Key) → AllDigits s → AllDigits t → AllDigits (reverse_aux s t)
All-reverse_aux [] t h k = k
All-reverse_aux (c ∷ s) t (p, h) k = All-reverse_aux s (c ∷ t) h (p, k)

decimal-AllDigits : (n : ℕ) → AllDigits (decimal n)
decimal-AllDigits n =
    rw reverse-reverse at
      (All-reverse_aux (reverse (decimal n)) [] (reverse-decimal-AllDigits n) tt)

OneLine-show : (n : Option ℕ) → OneLine (show n)
unfolding show all
OneLine-show none = refl
OneLine-show (some n) = AllDigits-OneLine (decimal n) (decimal-AllDigits n)

OneLine-type :
    (t : Option ChildProgramType) (k : Key) → child_process_type_to_string t ≡ ok k → OneLine k
unfolding child_process_type_to_string all
OneLine-type t k h = ground arith

OneLine-append : (s t : Key) → OneLine s → OneLine t → OneLine (s ++ t)
OneLine-append s t = all-append (λ c. not (is_line_end c)) s t

-- The root of a program whose type prints as `kind`.
root_of : Key → Option ℕ → Option ℕ → Key
root_of kind e i = codes "environment" ++ (show e ++ (b'/' ∷ (kind ++ (show i ++ (b'/' ∷ [])))))

OneLine-root_of : (kind : Key) (e i : Option ℕ) → OneLine kind → OneLine (root_of kind e i)
unfolding root_of all
OneLine-root_of kind e i h =
    OneLine-append (show e) _ (OneLine-show e)
      (OneLine-append kind _ h (OneLine-append (show i) (b'/' ∷ []) (OneLine-show i) refl))

root_prefix-eq-ok :
    (c : ChildProgram) {k : Key}
    → root_prefix c ≡ ok k
    → (kind : Key) × (child_process_type_to_string c.type ≡ ok kind)
      × (root_of kind c.env_id c.id ≡ k)
unfolding root_prefix root_of child_process_type_to_string
root_prefix-eq-ok c h =
    let (kind, e, same) = >>=-eq-ok (child_process_type_to_string c.type) _ h in
    (kind, e, ok_injective same)

root_prefix-OneLine : (c : ChildProgram) {k : Key} → root_prefix c ≡ ok k → OneLine k
root_prefix-OneLine c h =
    let (kind, e, same) = root_prefix-eq-ok c h in
    rw (← same) (OneLine-root_of kind c.env_id c.id (OneLine-type c.type kind e))

-- The time in the key of an in-progress file is read back from the key.
pub time_from_key-in_progress_key :
    (t : FragmentType) (c : ChildProgram) (n : ℕ) {k : Key}
    → in_progress_key t c n ≡ ok k
    → time_from_key t k ≡ at n
unfolding in_progress_key
time_from_key-in_progress_key t c n h =
    let (root, e, same) = >>=-eq-ok (root_prefix c) _ h in
    rw (← ok_injective same) (time_from_key-timed_name t root n (root_prefix-OneLine c e))

-- The time in the key of a sample in the depot is read back from the key.
pub time_from_key-single_sample_key :
    (t : FragmentType) (c : ChildProgram) (n : ℕ) {k : Key}
    → single_sample_key t c n ≡ ok k
    → time_from_key t k ≡ at n
unfolding single_sample_key depot_prefix all
time_from_key-single_sample_key t c n h =
    let (depot, e, same) = >>=-eq-ok (depot_prefix c) _ h in
    let (root, e', same') = >>=-eq-ok (root_prefix c) _ e in
    rw (← ok_injective same) (
      time_from_key-timed_name t depot n (
        rw (← ok_injective same')
          (OneLine-append root (codes "depot/") (root_prefix-OneLine c e') refl)))

decimal-injective : (m n : ℕ) → decimal m ≡ decimal n → m ≡ n
decimal-injective m n h = sym (parse_int-decimal m) ∙ ap parse_int h ∙ parse_int-decimal n

-- A numeral that a slash ends is read off the front of a text in one way.
numeral_first :
    (m n : ℕ) (s t : Key) → decimal m ++ (b'/' ∷ s) ≡ decimal n ++ (b'/' ∷ t) → (m ≡ n) × (s ≡ t)
numeral_first m n s t h =
    let taken =
      sym (take_digits-append (decimal m) b'/' s (decimal-AllDigits m) refl)
      ∙ ap take_digits h
      ∙ take_digits-append (decimal n) b'/' t (decimal-AllDigits n) refl in
    let dropped =
      sym (drop_digits-append (decimal m) b'/' s (decimal-AllDigits m) refl)
      ∙ ap drop_digits h
      ∙ drop_digits-append (decimal n) b'/' t (decimal-AllDigits n) refl in
    (decimal-injective m n taken, cc)

kind_name : ChildProgramType → Key
kind_name replay = codes "replay"
kind_name _ = codes "capture"

-- Whether two programs keep their files under one name: a mimic is a capture there.
abbrev pub SameKind : ChildProgramType → ChildProgramType → Type 0
SameKind t u = type_eq t replay ≡ type_eq u replay

abbrev first : Key → ℕ
first [] = 0
first (c ∷ s) = c

kind_first :
    (t u : ChildProgramType) (s s' : Key)
    → kind_name t ++ s ≡ kind_name u ++ s'
    → SameKind t u × (s ≡ s')
unfolding kind_name
kind_first replay replay s s' h = (refl, cc)
kind_first replay capture s s' h = absurd (omega (arith, ap first h))
kind_first replay mimic s s' h = absurd (omega (arith, ap first h))
kind_first capture replay s s' h = absurd (omega (arith, ap first h))
kind_first mimic replay s s' h = absurd (omega (arith, ap first h))
kind_first capture capture s s' h = (refl, cc)
kind_first capture mimic s s' h = (refl, cc)
kind_first mimic capture s s' h = (refl, cc)
kind_first mimic mimic s s' h = (refl, cc)

root_at : ChildProgramType → ℕ → ℕ → Key → Key
root_at t e i x =
    codes "environment" ++ (decimal e ++ (b'/' ∷ (kind_name t ++ (decimal i ++ (b'/' ∷ x)))))

kind-eq_kind_name :
    (t : ChildProgramType) {kind : Key}
    → child_process_type_to_string (some t) ≡ ok kind
    → kind_name t ≡ kind
unfolding child_process_type_to_string kind_name
kind-eq_kind_name capture h = cc
kind-eq_kind_name replay h = cc
kind-eq_kind_name mimic h = cc

root_of-append :
    (t : ChildProgramType) (e i : ℕ) (x : Key)
    → root_of (kind_name t) (some e) (some i) ++ x ≡ root_at t e i x
unfolding root_of root_at show
root_of-append t e i x = simp append_assoc

root_prefix-append :
    (c : ChildProgram) {t : ChildProgramType} {e i : ℕ} {p : Key} (x : Key)
    → c.type ≡ some t
    → c.env_id ≡ some e
    → c.id ≡ some i
    → root_prefix c ≡ ok p
    → p ++ x ≡ root_at t e i x
root_prefix-append c {t} {e} {i} x ct ce ci h =
    let (kind, k, same) = root_prefix-eq-ok c h in
    let kind' = kind-eq_kind_name t (rw ct at k) in
    rw (← same) (rw (ce, ci) (rw (← kind') (root_of-append t e i x)))

root_at-injective :
    (t u : ChildProgramType) (e e' i i' : ℕ) (x y : Key)
    → root_at t e i x ≡ root_at u e' i' y
    → SameKind t u × (e ≡ e') × (i ≡ i') × (x ≡ y)
unfolding root_at
root_at-injective t u e e' i i' x y h =
    let (env, rest) = numeral_first e e' _ _ (cc) in
    let (kind, rest') = kind_first t u _ _ rest in
    let (id, rest'') = numeral_first i i' x y rest' in (kind, env, id, rest'')

-- No file of one program lies in the directory of another: if two programs with an environment and a
-- number keep a file under one key, they have the environment, the number and the kind in common.
pub root_prefix_disjoint :
    (c d : ChildProgram) {t u : ChildProgramType} {e e' i i' : ℕ} {p q : Key} (x y : Key)
    → c.type ≡ some t
    → c.env_id ≡ some e
    → c.id ≡ some i
    → root_prefix c ≡ ok p
    → d.type ≡ some u
    → d.env_id ≡ some e'
    → d.id ≡ some i'
    → root_prefix d ≡ ok q
    → p ++ x ≡ q ++ y
    → SameKind t u × (e ≡ e') × (i ≡ i') × (x ≡ y)
root_prefix_disjoint c d {t} {u} {e} {e'} {i} {i'} x y ct ce ci cp dt de di dp h =
    root_at-injective t u e e' i i' x y
      (sym (root_prefix-append c x ct ce ci cp) ∙ h ∙ root_prefix-append d y dt de di dp)
