-- ===== src/Neupak/Files/Reading.antt =====
-- How `load_files_db` reads the lines of an array that `write_files_db` writes.
use packages_repo_main.Text.Laws.{append_text-if}
use packages_repo_main.Neupak.{max_path}
use packages_repo_main.Neupak.Lines.Laws.{
  trim_end-ends, lacks-append, strip_from-quoted, clean_steps, lacks, is_plain,
}
use packages_repo_main.Neupak.Arrays.{comma, collect_lines, contains_char}
use packages_repo_main.Neupak.Lines.{trim_end, clean, close_bracket, trim, strip_from}
use packages_repo_main.Text.{append_char, is_space, codes, quote, Bytes}
use packages_repo_main.Prelude.{
  length-append, none, ◌+◌, ltb, if◌then◌else◌, map, append_assoc, refl, some, ap, ◌<◌, arith,
  false, length, [], not, ◌++◌, true, ◌≡◌, ◌∷◌, List, ℕ,
}

-- A path that a line of files.db can hold.
pub record IsPath (path : Bytes) : Type 0 where
  pub plain : is_plain path ≡ true
  pub unbracketed : lacks close_bracket path ≡ true
  pub fits : length path < max_path

abbrev pub ArePaths : List Bytes → Type 0
ArePaths [] = Unit {0}
ArePaths (p ∷ ps) = IsPath p × ArePaths ps

abbrev pub item_text : Bytes → Bytes
item_text path = quote ∷ (path ++ quote ∷ comma ∷ [])

abbrev pub file_line : Bytes → Bytes
file_line path = codes "    " ++ item_text path

-- The items as `collect_array_value` joins them.
abbrev pub items : List Bytes → Bytes
items [] = []
items (p ∷ ps) = 32 ∷ (item_text p ++ items ps)

strip_item :
    (path : Bytes) → is_plain path ≡ true → strip_from false (item_text path) ≡ item_text path
unfolding strip_from
strip_item path h = ap (◌∷◌ quote) (strip_from-quoted path (comma ∷ []) (ground (arith, h)))

trim_end_item : (path : Bytes) → trim_end (path ++ quote ∷ comma ∷ []) ≡ path ++ quote ∷ comma ∷ []
unfolding is_space
trim_end_item path =
    rw (← append_assoc path (quote ∷ []) (comma ∷ []))
      (trim_end-ends (path ++ quote ∷ []) comma refl)

pub clean-file_line :
    (path : Bytes) → is_plain path ≡ true → clean (file_line path) ≡ item_text path
unfolding strip_from trim is_space
clean-file_line path h =
    clean_steps (file_line path) (file_line path) (item_text path)
      (ground (arith, h, lacks-append 0 path (quote ∷ comma ∷ [])))
      (ap (λ (t : Bytes). codes "    " ++ t) (strip_item path h))
      (ap (◌∷◌ quote) (trim_end_item path))

contains_char-lacks : (l : Bytes) (b : ℕ) → contains_char l b ≡ not (lacks b l)
unfolding contains_char
contains_char-lacks [] b = refl
contains_char-lacks (c ∷ cs) b = ground (arith, contains_char-lacks cs b)

collect_lines-closed :
    (size : ℕ) (out : Bytes) (lines : List Bytes)
    → lacks close_bracket out ≡ false
    → collect_lines size out lines ≡ some (out, lines)
unfolding collect_lines
collect_lines-closed size out [] h = ground (arith, h, contains_char-lacks out close_bracket)
collect_lines-closed size out (l ∷ ls) h = ground (arith, h, contains_char-lacks out close_bracket)

clean_close : clean (close_bracket ∷ []) ≡ close_bracket ∷ []
unfolding clean is_space
clean_close = refl

lacks-item_text :
    (path : Bytes) → lacks close_bracket path ≡ true → lacks close_bracket (item_text path) ≡ true
lacks-item_text path h = ground (arith, h, lacks-append close_bracket path (quote ∷ comma ∷ []))

-- The lines of an array are collected exactly when they fit the buffer.
pub collect_lines-items :
    (size : ℕ) (out : Bytes) (paths rest : List Bytes)
    → ArePaths paths
    → lacks close_bracket out ≡ true
    → length out < size
    → collect_lines size out (map file_line paths ++ (close_bracket ∷ []) ∷ rest) ≡ (
        if ltb (length out + length (items paths) + 2) size
        then some (out ++ (items paths ++ 32 ∷ close_bracket ∷ []), rest)
        else none)
unfolding collect_lines append_char
collect_lines-items size out [] rest a l h = ground (
  arith,
  contains_char-lacks out close_bracket,
  clean_close,
  length-append out (32 ∷ []),
  append_text-if size (out ++ 32 ∷ []) (close_bracket ∷ []),
  append_assoc out (32 ∷ []) (close_bracket ∷ []),
  collect_lines-closed size (out ++ 32 ∷ close_bracket ∷ []) rest,
  lacks-append close_bracket out (32 ∷ close_bracket ∷ []),
)
collect_lines-items size out (p ∷ ps) rest a l h = ground (
  arith,
  contains_char-lacks out close_bracket,
  clean-file_line p a.0.plain,
  length-append out (32 ∷ []),
  append_text-if size (out ++ 32 ∷ []) (item_text p),
  append_assoc out (32 ∷ []) (item_text p),
  append_assoc out (32 ∷ item_text p) (items ps ++ 32 ∷ close_bracket ∷ []),
  append_assoc (item_text p) (items ps) (32 ∷ close_bracket ∷ []),
  length-append out (32 ∷ item_text p),
  length-append (item_text p) (items ps),
  lacks-append close_bracket out (32 ∷ item_text p),
  lacks-item_text p a.0.unbracketed,
  collect_lines-items size (out ++ 32 ∷ item_text p) ps rest a.1,
)
