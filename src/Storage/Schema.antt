-- ===== src/Storage/Schema.antt =====
-- common/src/storage/backend-schema.ts: the names of the stored files. A key is a text as its code
-- points, since the code matches its characters.
pub mod Matching
pub mod Directories
use mathlib.Core.List.{reverse}
use lil_bobby_tables_my_crt.Common.Tests.{
  ℕ, String, Bool, false, not, ◌||◌, Option, none, some, List, [], ◌∷◌, ◌++◌, if◌then◌else◌, ◌==◌,
  codes,
}
use lil_bobby_tables_my_crt.Common.Lists.{all, is_nil}
use lil_bobby_tables_my_crt.Common.Digits.{decimal, parse_int, is_digit}
use lil_bobby_tables_my_crt.Common.Exec.{Result, ok, throw, ◌>>=◌}
use lil_bobby_tables_my_crt.Data.{ChildProgramType, capture, replay, mimic, ChildProgram}

abbrev pub Key : Type 0
Key = List ℕ

-- A rejection or an `Error`, by its message.
abbrev pub Error : Type 0
Error = String

-- `throw new Error("Bad Child Program Type: undefined")`
unfoldable pub child_process_type_to_string : Option ChildProgramType → Result Error Key
child_process_type_to_string none = throw "Bad Child Program Type: undefined"
child_process_type_to_string (some replay) = ok (codes "replay")
child_process_type_to_string (some capture) = ok (codes "capture")
child_process_type_to_string (some mimic) = ok (codes "capture")

-- `${n}` for a number that may be left out
unfoldable pub show : Option ℕ → Key
show none = codes "undefined"
show (some n) = decimal n

-- `environment${envId}/${type}${id}/`
unfoldable pub root_prefix : ChildProgram → Result Error Key
root_prefix c = do
  type ← child_process_type_to_string c.type
  ok (codes "environment" ++ (show c.env_id ++ (b'/' ∷ (type ++ (show c.id ++ (b'/' ∷ []))))))

unfoldable pub depot_prefix : ChildProgram → Result Error Key
depot_prefix c = do root ← root_prefix c; ok (root ++ codes "depot/")

pub data FragmentType : Type 0 where
  metrics workload : FragmentType

abbrev pub fragment_name : FragmentType → Key
fragment_name metrics = codes "metrics"
fragment_name workload = codes "workload"

-- `${fragmentType}.json`
abbrev pub done_name : FragmentType → Key
done_name t = fragment_name t ++ codes ".json"

-- `${fragmentType}-${time}.json`
unfoldable pub timed_name : FragmentType → ℕ → Key
timed_name t time = fragment_name t ++ (b'-' ∷ (decimal time ++ codes ".json"))

unfoldable pub done_key : FragmentType → ChildProgram → Result Error Key
done_key t c = do root ← root_prefix c; ok (root ++ done_name t)

unfoldable pub in_progress_key : FragmentType → ChildProgram → ℕ → Result Error Key
in_progress_key t c time = do root ← root_prefix c; ok (root ++ timed_name t time)

unfoldable pub single_sample_key : FragmentType → ChildProgram → ℕ → Result Error Key
single_sample_key t c time = do depot ← depot_prefix c; ok (depot ++ timed_name t time)

-- The rest of a text after a prefix.
unfoldable pub strip : Key → Key → Option Key
strip [] s = some s
strip (c ∷ p) [] = none
strip (c ∷ p) (d ∷ s) = if c == d then strip p s else none

unfoldable pub take_digits : Key → Key
take_digits [] = []
take_digits (c ∷ s) = if is_digit c then c ∷ take_digits s else []

unfoldable pub drop_digits : Key → Key
drop_digits [] = []
drop_digits (c ∷ s) = if is_digit c then drop_digits s else c ∷ s

-- The match of `${fragmentType}\-(\d+)\.json$`: what stands before it, and the captured digits. A dash
-- is no digit, so the text is cut in one way, and from the right. The lists are reversed.
match_before : Key → Option Key → Option (Key × Key)
match_before ds none = none
match_before ds (some before) = if is_nil ds then none else some (reverse before, reverse ds)

match_rest : FragmentType → Option Key → Option (Key × Key)
match_rest t none = none
match_rest t (some r) =
    match_before (take_digits r) (strip (b'-' ∷ reverse (fragment_name t)) (drop_digits r))

unfoldable pub match_timed : FragmentType → Key → Option (Key × Key)
unfolding match_rest match_before
match_timed t s = match_rest t (strip (reverse (codes ".json")) (reverse s))

-- What `.` does not match.
abbrev pub is_line_end : ℕ → Bool
is_line_end c = c == 10 || c == 13 || c == 0x2028 || c == 0x2029

-- `file.match(timePattern)`, with the pattern anchored on both sides
matches_whole : Option (Key × Key) → Bool
matches_whole none = false
matches_whole (some (before, ds)) = is_nil before

unfoldable pub time_pattern : FragmentType → Key → Bool
unfolding matches_whole
time_pattern t s = matches_whole (match_timed t s)

-- A time as the code handles it: -1 where a key holds none, `Number.MIN_VALUE` (the least positive
-- number) before any was seen, or a number of milliseconds.
pub data Time : Type 0 where
  minus_one min_value : Time
  at : ℕ → Time

time_of_match : Option (Key × Key) → Time
time_of_match none = minus_one
time_of_match (some (before, ds)) =
    if all (λ c. not (is_line_end c)) before then at (parse_int ds) else minus_one

unfoldable pub time_from_key : FragmentType → Key → Time
unfolding time_of_match
time_from_key t s = time_of_match (match_timed t s)
