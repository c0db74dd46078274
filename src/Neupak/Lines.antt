-- ===== src/Neupak/Lines.antt =====
-- neupak/src/neupak.cpp: the line reader shared by the configuration, index and database parsers.
-- The routines that cut a line in place return what is left of it. A routine with a `char*` and a
-- size as its out-parameter returns the string that it writes.
pub mod Laws
pub mod Values
pub mod Decimal
pub mod Tests
use packages_repo_main.Text.{newline, is_space, quote, append_text, skip_spaces, Bytes}
use packages_repo_main.Neupak.Packages.{is_digit}
use packages_repo_main.Prelude.Fallible.{◌>>=◌, ◌>>◌}
use packages_repo_main.Prelude.{
  zero, ◌%◌, ◌-◌, leb, ◌&&◌, ◌+◌, ◌*◌, ◌==◌, [], ◌/◌, some, none, not, if◌then◌else◌, suc, Option,
  false, ◌∷◌, true, ◌^◌, Bool, List, ℕ,
}

abbrev pub hash : ℕ
hash = 35

abbrev pub open_bracket : ℕ
open_bracket = 91

abbrev pub close_bracket : ℕ
close_bracket = 93

abbrev pub equals_sign : ℕ
equals_sign = 61

abbrev pub is_empty : Bytes → Bool
is_empty [] = true
is_empty (c ∷ cs) = false

-- The string that a `char*` to these bytes denotes.
unfoldable pub c_string : Bytes → Bytes
c_string [] = []
c_string (c ∷ cs) = if c == 0 then [] else c ∷ c_string cs

abbrev pub extend_first : ℕ → List Bytes → List Bytes
extend_first c [] = (c ∷ []) ∷ []
extend_first c (l ∷ ls) = (c ∷ l) ∷ ls

-- The lines that the loop `while (line < text + len)` visits.
unfoldable pub split_lines : Bytes → List Bytes
split_lines [] = []
split_lines (c ∷ cs) = if c == newline then [] ∷ split_lines cs else extend_first c (split_lines cs)

unfoldable pub strip_from : Bool → Bytes → Bytes
strip_from quoted [] = []
strip_from quoted (c ∷ cs) =
    let toggled = strip_from (not quoted) cs in
    let same = strip_from quoted cs in
    if c == quote then c ∷ toggled else if not quoted && c == hash then [] else c ∷ same

unfoldable pub strip_comment : Bytes → Bytes
unfolding strip_from
strip_comment line = strip_from false line

-- The second loop of `trim`, which cuts spaces off the end.
unfoldable pub trim_end : Bytes → Bytes
trim_end [] = []
trim_end (c ∷ cs) = let rest = trim_end cs in if is_space c && is_empty rest then [] else c ∷ rest

unfoldable pub trim : Bytes → Bytes
unfolding trim_end skip_spaces
trim line = trim_end (skip_spaces line)

-- A line as the parsers look at it.
unfoldable pub clean : Bytes → Bytes
unfolding c_string strip_comment trim
clean line = trim (strip_comment (c_string line))

-- The next byte has to be `c`.
unfoldable pub expect : ℕ → Bytes → Option Bytes
expect c [] = none
expect c (x ∷ xs) = if x == c then some xs else none

-- The copying loops: up to `stop` or the end, into a buffer of `size` bytes that holds `len`. The
-- results are what was copied and the text from the stop on.
unfoldable pub copy_until : ℕ → ℕ → ℕ → Bytes → Option (Bytes × Bytes)
copy_until stop size len [] = some ([], [])
copy_until stop size len (c ∷ cs) =
    if c == stop
    then some ([], c ∷ cs)
    else if leb size (len + 1)
    then none
    else do (out, rest) ← copy_until stop size (len + 1) cs; some (c ∷ out, rest)

-- `return len != 0`
abbrev pub unless_empty : Bytes → Option Bytes
unless_empty [] = none
unless_empty (c ∷ cs) = some (c ∷ cs)

-- `parse_section_header` behind `["`.
unfoldable pub quoted_section : ℕ → Bytes → Option Bytes
unfolding expect copy_until skip_spaces
quoted_section size text = do
  (out, rest) ← copy_until quote size 0 text
  after ← expect quote rest
  _ ← expect close_bracket (skip_spaces after)
  unless_empty out

-- `parse_section_header` behind a `[` that no quote follows.
unfoldable pub plain_section : ℕ → Bytes → Option Bytes
unfolding expect copy_until
plain_section size text = do
  (out, rest) ← copy_until close_bracket size 0 text
  _ ← expect close_bracket rest
  unless_empty out

unfoldable pub parse_section_header : ℕ → Bytes → Option Bytes
unfolding quoted_section plain_section
parse_section_header size line = do
  body ← expect open_bracket (skip_spaces line)
  elim (expect quote body) [
    | some inner ↦ quoted_section size inner
    | none ↦ plain_section size body
  ]

-- The text before the first `=`, and behind it.
unfoldable pub split_equals : Bytes → Option (Bytes × Bytes)
split_equals [] = none
split_equals (c ∷ cs) =
    if c == equals_sign
    then some ([], cs)
    else do (before, after) ← split_equals cs; some (c ∷ before, after)

unfoldable pub split_key_value : Bytes → Option (Bytes × Bytes)
unfolding split_equals trim
split_key_value line = do
  (before, after) ← split_equals line
  key ← unless_empty (trim before)
  some (key, trim after)

unfoldable pub parse_quoted : ℕ → Bytes → Option Bytes
unfolding expect copy_until skip_spaces
parse_quoted size value = do
  text ← expect quote (skip_spaces value)
  (out, rest) ← copy_until quote size 0 text
  _ ← expect quote rest
  some out

abbrev pub u64_mod : ℕ
u64_mod = 2 ^ 64

-- The loop of `parse_u64`: the value, in 64 bits, and the text behind the digits.
unfoldable pub read_digits : ℕ → Bytes → ℕ × Bytes
unfolding is_digit
read_digits result [] = (result, [])
read_digits result (c ∷ cs) =
    if is_digit c then read_digits ((result * 10 + (c - b'0')) % u64_mod) cs else (result, c ∷ cs)

unfoldable pub parse_u64 : Bytes → Option ℕ
unfolding read_digits skip_spaces
parse_u64 value = do
  text ← unless_empty (skip_spaces value)
  let (result, rest) = read_digits 0 text
  if is_empty (skip_spaces rest) then some result else none

-- The digits that `append_u64` writes: at most `room` of them, in front of those already there.
unfoldable pub u64_digits : ℕ → ℕ → Bytes → Bytes
u64_digits zero value digits = digits
u64_digits (suc room) value digits =
    let more = u64_digits room (value / 10) ((b'0' + value % 10) ∷ digits) in
    if value / 10 == 0 then (b'0' + value % 10) ∷ digits else more

unfoldable pub append_u64 : ℕ → Bytes → ℕ → Option Bytes
unfolding u64_digits append_text
append_u64 size out value = append_text size out (u64_digits 24 value [])
