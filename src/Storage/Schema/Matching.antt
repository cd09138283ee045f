-- ===== src/Storage/Schema/Matching.antt =====
-- The names of fragments and the patterns that read them back.
use mathlib.Core.List.{reverse, reverse-append, reverse-cons, reverse-reverse, append_assoc}
use lil_bobby_tables_my_crt.Common.Tests.{
  ℕ, ◌≡◌, refl, true, false, not, some, [], ◌∷◌, ◌++◌, codes, arith,
}
use lil_bobby_tables_my_crt.Common.Lists.{all, is_nil}
use lil_bobby_tables_my_crt.Common.Digits.{
  decimal, is_digit, AllDigits, reverse-decimal-AllDigits, parse_int-decimal,
  reverse-decimal_nonempty,
}
use lil_bobby_tables_my_crt.Storage.Schema.{
  Key, FragmentType, fragment_name, timed_name, strip, take_digits, drop_digits, match_before,
  match_rest, match_timed, is_line_end, matches_whole, time_pattern, time_from_key, time_of_match,
  at,
}

pub strip-append : (p s : Key) → strip p (p ++ s) ≡ some s
unfolding strip
strip-append [] s = refl
strip-append (c ∷ p) s = ground (arith, strip-append p s)

pub take_digits-append :
    (ds : Key) (c : ℕ) (s : Key)
    → AllDigits ds
    → is_digit c ≡ false
    → take_digits (ds ++ (c ∷ s)) ≡ ds
unfolding take_digits
take_digits-append [] c s h k = rw k refl
take_digits-append (d ∷ ds) c s (p, h) k = rw (p, take_digits-append ds c s h k) refl

pub drop_digits-append :
    (ds : Key) (c : ℕ) (s : Key)
    → AllDigits ds
    → is_digit c ≡ false
    → drop_digits (ds ++ (c ∷ s)) ≡ c ∷ s
unfolding drop_digits
drop_digits-append [] c s h k = rw k refl
drop_digits-append (d ∷ ds) c s (p, h) k = rw (p, drop_digits-append ds c s h k) refl

-- The reversed key of a timed file, with whatever directory before it.
reverse-timed :
    (t : FragmentType) (dir : Key) (n : ℕ)
    → reverse (dir ++ timed_name t n)
      ≡ reverse (codes ".json")
        ++ (reverse (decimal n) ++ (b'-' ∷ (reverse (fragment_name t) ++ reverse dir)))
unfolding timed_name
reverse-timed t dir n = simp (reverse-append, reverse-cons, reverse-cons, append_assoc)

pub match_timed-timed_name :
    (t : FragmentType) (dir : Key) (n : ℕ)
    → match_timed t (dir ++ timed_name t n) ≡ some (dir, decimal n)
unfolding match_timed match_rest match_before
match_timed-timed_name t dir n =
    let ds = reverse (decimal n) in
    let tail = reverse (fragment_name t) ++ reverse dir in
    let digits = reverse-decimal-AllDigits n in
    rw (reverse-timed t dir n) (
      rw (strip-append (reverse (codes ".json")) (ds ++ (b'-' ∷ tail))) (
        rw (take_digits-append ds b'-' tail digits refl) (
          rw (drop_digits-append ds b'-' tail digits refl) (
            rw (strip-append (b'-' ∷ reverse (fragment_name t)) (reverse dir))
              (rw (reverse-decimal_nonempty n) (simp reverse-reverse))))))

-- A directory whose name holds no line terminator; so are those that the schema makes.
abbrev pub OneLine : Key → Type 0
OneLine s = all (λ c. not (is_line_end c)) s ≡ true

-- The time in the name of a fragment, in whatever directory, is read back.
pub time_from_key-timed_name :
    (t : FragmentType) (dir : Key) (n : ℕ)
    → OneLine dir
    → time_from_key t (dir ++ timed_name t n) ≡ at n
unfolding time_from_key time_of_match
time_from_key-timed_name t dir n h =
    rw (match_timed-timed_name t dir n) (rw (h, parse_int-decimal n) refl)

-- The anchored pattern takes a fragment's own name, and no name with a directory before it.
pub time_pattern-timed_name :
    (t : FragmentType) (dir : Key) (n : ℕ) → time_pattern t (dir ++ timed_name t n) ≡ is_nil dir
unfolding time_pattern matches_whole
time_pattern-timed_name t dir n = rw (match_timed-timed_name t dir n) refl
