-- ===== src/Neupak/Lines/Tests.antt =====
-- Runs of the line reader, and the theorems at them.
use packages_repo_main.Neupak.Arrays.FileEnds.{parse_file_array-Within}
use packages_repo_main.Neupak.Lines.Decimal.{parse_u64-append_u64}
use packages_repo_main.Neupak.Arrays.{parse_file_array, parse_string_list_line}
use packages_repo_main.Neupak.{max_files, max_deps, max_path, max_name}
use packages_repo_main.Neupak.Arrays.Ends.{parse_string_list_line-Within, Within}
use packages_repo_main.Text.{is_space, Bytes, codes}
use packages_repo_main.Neupak.Lines.{append_u64, parse_u64, strip_comment, parse_section_header}
use packages_repo_main.Prelude.{◌≤◌, length, arith, none, refl, ◌++◌, some, ◌≡◌}

headers :
    (parse_section_header 64 (codes "  [ui]") ≡ some (codes "ui"))
    × (parse_section_header 64 (codes "[\"a b\" ] rest") ≡ some (codes "a b"))
    × (parse_section_header 64 (codes "[]") ≡ none)
    × (parse_section_header 4 (codes "[long]") ≡ none)
unfolding parse_section_header
headers = (refl, refl, refl, refl)

comments : strip_comment (codes "a = \"#1\" # two") ≡ codes "a = \"#1\" "
unfolding strip_comment
comments = refl

numbers : (parse_u64 (codes " 042 ") ≡ some 42) × (parse_u64 (codes "4x") ≡ none)
unfolding parse_u64
numbers = (refl, refl)

parse_u64-append_u64_example :
    (text : Bytes) × (append_u64 64 (codes "size = ") 1790000000 ≡ some (codes "size = " ++ text))
    × (length text ≤ 20)
    × (parse_u64 (text ++ codes "\n\n") ≡ some 1790000000)
unfolding is_space
parse_u64-append_u64_example =
    parse_u64-append_u64 64 (codes "size = ") 1790000000 (codes "\n\n") (omega arith) (omega arith)
      refl

parse_string_list_line-Within_example :
    Within max_name max_deps (parse_string_list_line (codes "[\"libc\", \"ui\"]"))
parse_string_list_line-Within_example = parse_string_list_line-Within (codes "[\"libc\", \"ui\"]")

parse_file_array-Within_example :
    Within max_path max_files (parse_file_array (codes "[\"/a\",\"/b\"]"))
parse_file_array-Within_example = parse_file_array-Within (codes "[\"/a\",\"/b\"]")
