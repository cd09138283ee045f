-- ===== src/Process/Args/RoundTrip.antt =====
-- A configuration that is written as arguments and read back.
use lil_bobby_tables_my_crt.Common.Tests.{
  arith, sym, ap, ◌∙◌, ◌≡◌, Bool, not, ◌&&◌, str_eq, ℕ, refl, ◌≢◌, inl, inr, true, false, Option,
  some, List, [], ◌∷◌, ◌++◌, if◌then◌else◌,
}
use lil_bobby_tables_my_crt.Common.Exec.{ok}
use lil_bobby_tables_my_crt.Common.Lists.{All-map_of, all, All-append, In, All}
use lil_bobby_tables_my_crt.Common.Digits.{AllDigits, is_digit, reverse-decimal-AllDigits, decimal}
use mathlib.Core.List.{reverse, reverse-reverse, reverse-cons}
use lil_bobby_tables_my_crt.Process.Args.{
  NamedIn, defaults, to_arg_list, make_option_args, Arg, number_type, boolean_type, Value,
  null_value, flag, number, numbers, OptionDefinition, Options, args_of, repeated, long, set_option,
  listed, AtOption, Plain, ReadsArgs,
}
use lil_bobby_tables_my_crt.Storage.Backend.{key_eq_iff, key_eq}

-- The value is one of the option's type, and the option is written by its name.
abbrev pub Fits : OptionDefinition → Value → Type 0
Fits o null_value = ⊥
Fits o (flag b) = o.type ≡ boolean_type
Fits o (number n) = (o.type ≡ number_type) × (o.multiple ≡ false)
Fits o (numbers ns) = (o.type ≡ number_type) × (o.multiple ≡ true)

-- What reading an option back sets.
abbrev pub put : OptionDefinition → Value → Options → Options
put o null_value options = options
put o (flag b) options = if b then set_option o.name (flag true) options else options
put o (number n) options = set_option o.name (number n) options
put o (numbers []) options = options
put o (numbers (n ∷ ns)) options =
    let more = put o (numbers ns) options in
    set_option o.name (numbers (n ∷ listed (more o.name))) more

abbrev pub put_all : List (OptionDefinition × Value) → Options → Options
put_all [] options = options
put_all ((o, value) ∷ rest) options = put o value (put_all rest options)

-- Arguments that an option may be put before.
abbrev pub Rest : List OptionDefinition → List Arg → Type 0
Rest os rest = AtOption os rest × Plain os rest

module _ (os : List OptionDefinition) (read : List Arg → Option Options)
    (h : ReadsArgs os read) where
  read-repeated :
      (o : OptionDefinition) (ns : List ℕ) (rest : List Arg) (options : Options)
      → In o os
      → o.type ≡ number_type
      → o.multiple ≡ true
      → Rest os rest
      → read rest ≡ some options
      → Rest os (repeated (long o) ns ++ rest)
        × (read (repeated (long o) ns ++ rest) ≡ some (put o (numbers ns) options))
  read-repeated o [] rest options i t m r e = (r, e)
  read-repeated o (n ∷ ns) rest options i t m r e =
      let ih = read-repeated o ns rest options i t m r e in
      (
        ((o, i, refl), (inl (o, i, refl), (inr (n, refl), ih.0.1))),
        h.reads_numbers o n (repeated (long o) ns ++ rest) (put o (numbers ns) options) i t m ih.0.0
            ih.0.1 ih.1,
      )

  read_option :
      (o : OptionDefinition) (value : Value) (rest : List Arg) (options : Options)
      → In o os
      → Fits o value
      → Rest os rest
      → All (λ arg. arg ≢ long o) rest
      → read rest ≡ some options
      → Rest os (args_of o.type o.multiple (long o) value ++ rest)
        × (read (args_of o.type o.multiple (long o) value ++ rest) ≡ some (put o value options))
  read_option o null_value rest options i f r new e = absurd f
  read_option o (flag true) rest options i f r new e =
      rw f
        (((o, i, refl), (inl (o, i, refl), r.1)), h.reads_flag o rest options i f (r.0, r.1, new) e)
  read_option o (flag false) rest options i f r new e = rw f (r, e)
  read_option o (number n) rest options i f r new e = rw f.0 (
      rw f.1 (
        ((o, i, refl), (inl (o, i, refl), (inr (n, refl), r.1))),
        h.reads_number o n rest options i f.0 f.1 (r.0, r.1, new) e,
      ))
  read_option o (numbers ns) rest options i f r new e =
      rw f.0 (rw f.1 (read-repeated o ns rest options i f.0 f.1 r e))

AllDigits-reverse : (ds : List ℕ) → AllDigits ds → AllDigits (reverse ds)
AllDigits-reverse [] h = tt
AllDigits-reverse (d ∷ ds) (p, h) =
    rw (reverse-cons d ds)
      (All-append (λ c. is_digit c ≡ true) (reverse ds) (d ∷ []) (AllDigits-reverse ds h) (p, tt))

decimal-AllDigits : (n : ℕ) → AllDigits (decimal n)
decimal-AllDigits n =
    let h = AllDigits-reverse (reverse (decimal n)) (reverse-decimal-AllDigits n) in
    rw reverse-reverse at h

-- A number is no name of an option.
long_no_decimal : (o : OptionDefinition) (n : ℕ) → decimal n ≢ long o
long_no_decimal o n e = let h = (rw e at (decimal-AllDigits n)).0 in cc

-- The options have names, which all differ.
abbrev pub all_differ : List Arg → Bool
all_differ [] = true
all_differ (a ∷ rest) = all (λ b. not (key_eq a b)) rest && all_differ rest

abbrev pub names : List (OptionDefinition × Value) → List Arg
names [] = []
names ((o, value) ∷ rest) = long o ∷ names rest

abbrev pub options_of : List (OptionDefinition × Value) → List OptionDefinition
options_of [] = []
options_of ((o, value) ∷ rest) = o ∷ options_of rest

-- A pair of an option of the process, which has a name, with a value of its type.
abbrev pub Good : List OptionDefinition → OptionDefinition × Value → Type 0
Good os (o, value) = In o os × (str_eq o.name "" ≡ false) × Fits o value

repeated-Plain :
    (l : List OptionDefinition) (o : OptionDefinition) (ns : List ℕ)
    → In o l
    → Plain l (repeated (long o) ns)
repeated-Plain l o [] i = tt
repeated-Plain l o (n ∷ ns) i = (inl (o, i, refl), (inr (n, refl), repeated-Plain l o ns i))

args_of-Plain :
    (l : List OptionDefinition) (o : OptionDefinition) (value : Value)
    → In o l
    → Fits o value
    → Plain l (args_of o.type o.multiple (long o) value)
args_of-Plain l o null_value i f = absurd f
args_of-Plain l o (flag true) i f = rw f (inl (o, i, refl), tt)
args_of-Plain l o (flag false) i f = rw f tt
args_of-Plain l o (number n) i f = rw f.0 (rw f.1 (inl (o, i, refl), (inr (n, refl), tt)))
args_of-Plain l o (numbers ns) i f = rw f.0 (rw f.1 (repeated-Plain l o ns i))

Plain-weaken :
    (l : List OptionDefinition) (o : OptionDefinition) (args : List Arg)
    → Plain l args
    → Plain (o ∷ l) args
Plain-weaken l o =
    All-map_of (NamedIn l) (NamedIn (o ∷ l))
      (λ arg p. elim p [ inl q ↦ inl (q.0, inr q.1, q.2) | inr q ↦ inr q ])

all-In :
    (test : Arg → Bool) (xs : List Arg) (x : Arg) → all test xs ≡ true → In x xs → test x ≡ true
unfolding all
all-In test [] x h i = absurd i
all-In test (y ∷ ys) x h (inl e) = ground (arith, ap test e)
all-In test (y ∷ ys) x h (inr i) = ground (arith, all-In test ys x)

In-names :
    (pairs : List (OptionDefinition × Value)) (o : OptionDefinition)
    → In o (options_of pairs)
    → In (long o) (names pairs)
In-names [] o i = i
In-names ((p, value) ∷ rest) o (inl e) = inl (ap long e)
In-names ((p, value) ∷ rest) o (inr i) = inr (In-names rest o i)

not_named :
    (pairs : List (OptionDefinition × Value)) (o : OptionDefinition) (args : List Arg)
    → all (λ b. not (key_eq (long o) b)) (names pairs) ≡ true
    → Plain (options_of pairs) args
    → All (λ arg. arg ≢ long o) args
not_named pairs o args differ =
    All-map_of (NamedIn (options_of pairs)) (λ arg. arg ≢ long o)
      (λ arg p. elim p [
        | inl q ↦ λ e.
            let t =
              all-In (λ b. not (key_eq (long o) b)) (names pairs) (long q.0) differ
                (In-names pairs q.0 q.1) in
            let same = (key_eq_iff (long o) (long q.0)).1 (sym e ∙ q.2) in cc
        | inr q ↦ λ e. long_no_decimal o q.0 (sym q.1 ∙ e)
      ])
      args

make_option_args-Good :
    (os : List OptionDefinition) (o : OptionDefinition) (value : Value)
    → Good os (o, value)
    → make_option_args o value ≡ ok (args_of o.type o.multiple (long o) value)
unfolding make_option_args
make_option_args-Good os o null_value g = absurd g.2
make_option_args-Good os o (flag b) g = rw g.1 refl
make_option_args-Good os o (number n) g = rw g.1 refl
make_option_args-Good os o (numbers ns) g = rw g.1 refl

module _ (os : List OptionDefinition) (read : List Arg → Option Options)
    (h : ReadsArgs os read) where
  -- What is written can be written, and is read back.
  pub read-to_arg_list :
      (pairs : List (OptionDefinition × Value))
      → All (Good os) pairs
      → all_differ (names pairs) ≡ true
      → (args : List Arg) × (to_arg_list pairs ≡ ok args)
        × Rest os args
        × Plain (options_of pairs) args
        × (read args ≡ some (put_all pairs (defaults os)))
  unfolding to_arg_list
  read-to_arg_list [] g d = ([], refl, (tt, tt), tt, h.nothing)
  read-to_arg_list ((o, value) ∷ rest) (p, g) d =
      let ih = read-to_arg_list rest g (ground (arith, d)) in
      let new = not_named rest o ih.0 (ground (arith, d)) ih.3 in
      let r =
        read_option os read h o value ih.0 (put_all rest (defaults os)) p.0 p.2 ih.2 new ih.4 in
      let args = args_of o.type o.multiple (long o) value in
      (
        args ++ ih.0,
        rw (make_option_args-Good os o value p) (rw ih.1 refl),
        r.0,
        All-append (NamedIn (o ∷ options_of rest)) args ih.0
            (args_of-Plain (o ∷ options_of rest) o value (inl refl) p.2)
            (Plain-weaken (options_of rest) o ih.0 ih.3),
        r.1,
      )
