-- ===== src/Text.antt =====
-- userspace-support/helpers/text.cpp and args.cpp, and the calls of the C library that the
-- programs make on text. A C string is the list of the bytes before its terminating NUL; a buffer
-- of `size` bytes is its size together with the string that it holds.
pub mod Laws
use Prim.Native.Char.{code}
use Prim.Native.String.{String}
use packages_repo_main.Prelude.Fallible.{◌>>=◌}
use packages_repo_main.Prelude.{
  ℕ, ◌+◌, ◌-◌, Bool, true, false, ◌&&◌, ◌||◌, List, [], ◌∷◌, ◌++◌, Option, none, some, ◌==◌, leb,
  if◌then◌else◌, length, take,
}

abbrev pub Bytes : Type 0
Bytes = List ℕ

-- The bytes of an ASCII literal.
abbrev pub codes : String → Bytes
codes String.[] = []
codes (String.◌∷◌ c s) = code c ∷ codes s

abbrev pub quote : ℕ
quote = 34

abbrev pub newline : ℕ
newline = 10

unfoldable pub is_space : ℕ → Bool
is_space c = c == 32 || c == 9 || c == 10 || c == 13

unfoldable pub skip_spaces : Bytes → Bytes
unfolding is_space
skip_spaces [] = []
skip_spaces (c ∷ cs) = if is_space c then skip_spaces cs else c ∷ cs

-- `strcmp(a, b) == 0`
unfoldable pub streq : Bytes → Bytes → Bool
streq [] [] = true
streq [] (y ∷ ys) = false
streq (x ∷ xs) [] = false
streq (x ∷ xs) (y ∷ ys) = x == y && streq xs ys

unfoldable pub starts_with : Bytes → Bytes → Bool
starts_with text [] = true
starts_with [] (p ∷ ps) = false
starts_with (c ∷ cs) (p ∷ ps) = c == p && starts_with cs ps

-- Whether an array of strings has one equal to `name`.
unfoldable pub contains : List Bytes → Bytes → Bool
contains [] name = false
contains (x ∷ xs) name = streq x name || contains xs name

-- `strlcpy` into a buffer of `size` bytes.
abbrev pub strlcpy : ℕ → Bytes → Bytes
strlcpy size text = take (size - 1) text

unfoldable pub append_char : ℕ → Bytes → ℕ → Option Bytes
append_char size out c = if leb size (length out + 1) then none else some (out ++ c ∷ [])

unfoldable pub append_text : ℕ → Bytes → Bytes → Option Bytes
append_text size out [] = some out
append_text size out (c ∷ cs) = do out' ← append_char size out c; append_text size out' cs
