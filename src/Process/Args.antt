-- ===== src/Process/Args.antt =====
-- common/src/capture-replay/args.ts: the command line of a process, from the options of its
-- configuration, and what is relied on of the package `command-line-args` that reads it.
pub mod Configs
pub mod RoundTrip
pub mod Written
use lil_bobby_tables_my_crt.Common.Tests.{
  ◌⊎◌, ℕ, ◌+◌, ◌-◌, String, ◌≡◌, ◌≢◌, Bool, true, false, not, Option, some, List, [], ◌∷◌, ◌++◌,
  str_eq, ◌==◌, if◌then◌else◌, codes,
}
use lil_bobby_tables_my_crt.Common.Lists.{In, All}
use lil_bobby_tables_my_crt.Common.Exec.{Result, ok, throw, ◌>>=◌}
use lil_bobby_tables_my_crt.Common.Digits.{decimal}

-- A text as its code points.
abbrev pub Arg : Type 0
Arg = List ℕ

pub data OptionType : Type 0 where
  number_type boolean_type : OptionType

-- `null_value` stands for null and undefined.
pub data Value : Type 0 where
  null_value : Value
  flag : Bool → Value
  number : ℕ → Value
  numbers : List ℕ → Value

pub record OptionDefinition : Type 0 where
  pub name : String
  pub alias : String
  pub type : OptionType
  pub multiple : Bool
  pub default_value : Value

abbrev pub is_truthy : Value → Bool
is_truthy null_value = false
is_truthy (flag b) = b
is_truthy (number n) = not (n == 0)
is_truthy (numbers ns) = true

-- `numbers.join(',')`
abbrev pub joined : List ℕ → Arg
joined [] = []
joined (n ∷ []) = decimal n
joined (n ∷ ns) = decimal n ++ (codes "," ++ joined ns)

-- `value.toString()`
abbrev pub to_text : Value → Arg
to_text null_value = []
to_text (flag true) = codes "true"
to_text (flag false) = codes "false"
to_text (number n) = decimal n
to_text (numbers ns) = joined ns

abbrev pub key_of : OptionDefinition → Result Arg Arg
key_of o =
    if not (str_eq o.name "")
    then ok (codes "--" ++ codes o.name)
    else (if not (str_eq o.alias "")
        then ok (codes "-" ++ codes o.alias)
        else throw (codes "Cannot make option arguments without a name or alias"))

-- `prev.concat([key, val.toString()])` for each value
abbrev pub repeated : Arg → List ℕ → List Arg
repeated key [] = []
repeated key (n ∷ ns) = key ∷ decimal n ∷ repeated key ns

abbrev pub args_of : OptionType → Bool → Arg → Value → List Arg
args_of boolean_type multiple key value = if is_truthy value then key ∷ [] else []
args_of number_type true key (numbers ns) = repeated key ns
args_of number_type multiple key value = key ∷ to_text value ∷ []

unfoldable pub make_option_args : OptionDefinition → Value → Result Arg (List Arg)
make_option_args o null_value = do
  key ← key_of o
  throw (codes "Please provide a value for " ++ codes o.name)
make_option_args o value = do key ← key_of o; ok (args_of o.type o.multiple key value)

-- `toArgList` of the pairs that `getOptionsMap` gives
unfoldable pub to_arg_list : List (OptionDefinition × Value) → Result Arg (List Arg)
unfolding make_option_args
to_arg_list [] = ok []
to_arg_list ((o, value) ∷ rest) = do
  args ← make_option_args o value
  more ← to_arg_list rest
  ok (args ++ more)

-- The values that were read, by name.
abbrev pub Options : Type 0
Options = String → Value

abbrev pub set_option : String → Value → Options → Options
set_option name value options n = if str_eq n name then value else options n

-- The values with no argument at all.
abbrev pub defaults : List OptionDefinition → Options
defaults [] n = null_value
defaults (o ∷ os) n = if str_eq n o.name then o.default_value else defaults os n

-- The argument names an option.
abbrev pub long : OptionDefinition → Arg
long o = codes "--" ++ codes o.name

-- No argument follows, or the name of an option.
abbrev pub AtOption : List OptionDefinition → List Arg → Type 0
AtOption os [] = Unit
AtOption os (arg ∷ rest) = (o : OptionDefinition) × In o os × (arg ≡ long o)

-- The argument is the name of an option, written out, or a number.
abbrev pub NamedIn : List OptionDefinition → Arg → Type 0
NamedIn os arg = ((o : OptionDefinition) × In o os × (arg ≡ long o)) ⊎ ((n : ℕ) × (arg ≡ decimal n))

abbrev pub Plain : List OptionDefinition → List Arg → Type 0
Plain os = All (NamedIn os)

-- Such arguments stand behind an option, and do not name it again.
abbrev pub Behind : List OptionDefinition → OptionDefinition → List Arg → Type 0
Behind os o rest = AtOption os rest × Plain os rest × All (λ arg. arg ≢ long o) rest

abbrev pub listed : Value → List ℕ
listed (numbers ns) = ns
listed _ = []

-- The documented behaviour of `commandLineArgs` with these options: absent options have their defaults, a
-- Boolean option is set by its name, an option with a value takes the next argument, and one with
-- several values takes one after each of its names.
pub record ReadsArgs (os : List OptionDefinition) (read : List Arg → Option Options) : Type 0 where
  pub nothing : read [] ≡ some (defaults os)
  pub reads_flag :
      (o : OptionDefinition) (rest : List Arg) (options : Options)
      → In o os
      → o.type ≡ boolean_type
      → Behind os o rest
      → read rest ≡ some options
      → read (long o ∷ rest) ≡ some (set_option o.name (flag true) options)
  pub reads_number :
      (o : OptionDefinition) (n : ℕ) (rest : List Arg) (options : Options)
      → In o os
      → o.type ≡ number_type
      → o.multiple ≡ false
      → Behind os o rest
      → read rest ≡ some options
      → read (long o ∷ decimal n ∷ rest) ≡ some (set_option o.name (number n) options)
  pub reads_numbers :
      (o : OptionDefinition) (n : ℕ) (rest : List Arg) (options : Options)
      → In o os
      → o.type ≡ number_type
      → o.multiple ≡ true
      → AtOption os rest
      → Plain os rest
      → read rest ≡ some options
      → read (long o ∷ decimal n ∷ rest)
        ≡ some (set_option o.name (numbers (n ∷ listed (options o.name))) options)
