-- ===== src/Neupak/Files/Reload.antt =====
-- What becomes of a record of files.db that was written: `load_files_db` collects an array in a
-- buffer of 8192 bytes, and `write_files_db` has no such bound.
use packages_repo_main.Neupak.Files.Records.{
  text_of, IsStorable, parse_files-record, record_lines, array_size, lines_text,
}
use packages_repo_main.Neupak.Installed.{read_file_limited}
use packages_repo_main.Neupak.Files.Render.{
  append_files_record, render_files, append_file, append_all_files,
}
use packages_repo_main.Text.Laws.{append_char_fits, append_text_fits}
use packages_repo_main.Neupak.Installed.RoundTrip.{name_lacks-newline}
use packages_repo_main.Neupak.Lines.Laws.{lacks-append, split_lines-line, lacks, is_plain}
use packages_repo_main.Neupak.Installed.Reading.{lacks-framed, valid_name-chars, section_line}
use packages_repo_main.Neupak.Arrays.{comma}
use packages_repo_main.Neupak.Files.Reading.{file_line, ArePaths}
use packages_repo_main.Neupak.Lines.{split_lines, open_bracket, close_bracket}
use packages_repo_main.Prelude.Outcome.{failed, done}
use packages_repo_main.Text.{newline, codes, quote, Bytes}
use packages_repo_main.Neupak.Files.{load_files_db, parse_files, files_text_size}
use packages_repo_main.Neupak.{max_text, PackageFiles}
use packages_repo_main.Prelude.{
  ◌*◌, append_assoc, some, refl, ap, ◌∙◌, suc, ◌++◌, map, ◌≤◌, length-append, [], arith, ◌<◌, ltb,
  ◌+◌, true, if◌then◌else◌, length, ◌∷◌, ◌≡◌, List, ℕ,
}

lacks-file_line : (path : Bytes) → is_plain path ≡ true → lacks newline (file_line path) ≡ true
lacks-file_line path h = ground (arith, h, lacks-append newline path (quote ∷ comma ∷ []))

split_lines-files :
    (paths rest : List Bytes) (tail : Bytes)
    → ArePaths paths
    → split_lines tail ≡ rest
    → split_lines (lines_text (map file_line paths) tail) ≡ map file_line paths ++ rest
split_lines-files [] rest tail a e = e
split_lines-files (p ∷ ps) rest tail a e =
    split_lines-line (file_line p) (lines_text (map file_line ps) tail)
      (lacks-file_line p a.0.plain)
    ∙ ap (◌∷◌ (file_line p)) (split_lines-files ps rest tail a.1 e)

split_lines-text_of : (p : PackageFiles) → IsStorable p → split_lines (text_of p) ≡ record_lines p
unfolding split_lines
split_lines-text_of p s =
    let (chars, _) = valid_name-chars p.name s.name_valid in
    split_lines-line (section_line p.name) _
      (lacks-framed newline p.name close_bracket (name_lacks-newline p.name chars) refl)
    ∙ ap (λ (ls : List Bytes). section_line p.name ∷ codes "files = [" ∷ ls)
        (split_lines-files p.files ((close_bracket ∷ []) ∷ [] ∷ [])
          (close_bracket ∷ newline ∷ newline ∷ []) s.paths refl)

-- The bytes of the lines of an array.
abbrev lines_size : List Bytes → ℕ
lines_size [] = 0
lines_size (p ∷ ps) = length p + 8 + lines_size ps

append_all_files_fits :
    (out : Bytes) (paths : List Bytes) (tail : Bytes)
    → length out + lines_size paths < max_text
    → (r : Bytes) × (append_all_files out paths ≡ some r)
      × (r ++ tail ≡ out ++ lines_text (map file_line paths) tail)
      × (length r ≡ length out + lines_size paths)
unfolding append_all_files append_file
append_all_files_fits out [] tail h = (out, refl, refl, omega arith)
append_all_files_fits out (p ∷ ps) tail h =
    let out' = ((out ++ codes "    \"") ++ p) ++ codes "\",\n" in
    let (r, e, same, len) = append_all_files_fits out' ps tail (omega (arith, length-append {0})) in
    (
      r,
      rw (append_text_fits max_text out (codes "    \"") (omega arith)) (
          rw
            (append_text_fits max_text (out ++ codes "    \"") p (omega (arith, length-append {0})))
            (rw
              (append_text_fits max_text ((out ++ codes "    \"") ++ p) (codes "\",\n")
                (omega (arith, length-append {0})))
              e)),
      same ∙ simp append_assoc,
      omega (arith, len, length-append {0}),
    )

lines_size-le : (ps : List Bytes) → ArePaths ps → lines_size ps ≤ 264 * length ps
lines_size-le [] a = omega arith
lines_size-le (p ∷ ps) a = let fits = a.0.fits in omega (arith, lines_size-le ps a.1)

length-lines_text :
    (ps : List Bytes) (tail : Bytes)
    → length (lines_text (map file_line ps) tail) ≡ lines_size ps + length tail
length-lines_text [] tail = omega arith
length-lines_text (p ∷ ps) tail = omega (
  arith,
  length-lines_text ps tail,
  length-append (p ++ quote ∷ comma ∷ []) (newline ∷ lines_text (map file_line ps) tail),
  length-append p (quote ∷ comma ∷ []),
)

render_files_one : (p : PackageFiles) → IsStorable p → render_files [] (p ∷ []) ≡ some (text_of p)
unfolding render_files append_files_record
render_files_one p s =
    let few = s.few in
    let named = s.name_fits in
    let size = lines_size-le p.files s.paths in
    let a = open_bracket ∷ [] in
    let b = a ++ p.name in
    let c = b ++ codes "]\nfiles = [\n" in
    let (d, filled, same, len) =
      append_all_files_fits c p.files (close_bracket ∷ newline ∷ newline ∷ [])
        (omega (arith, length-append {0}, length-append p.name (codes "]\nfiles = [\n"))) in
    rw (append_char_fits max_text [] open_bracket (omega arith)) (
      rw
        (append_text_fits max_text a p.name
          (omega (arith, length-append {0}, length-append p.name (codes "]\nfiles = [\n"))))
        (rw
          (append_text_fits max_text b (codes "]\nfiles = [\n")
            (omega (arith, length-append {0}, length-append p.name (codes "]\nfiles = [\n"))))
          (rw (filled) (
            rw
              (append_text_fits max_text d (codes "]\n\n") (
                omega
                  (arith, len, length-append {0}, length-append p.name (codes "]\nfiles = [\n"))))
              (ap some (same ∙ simp append_assoc))))))

load_files_text :
    (fuel : ℕ) (text : Bytes) (lines : List Bytes)
    → length text < max_text
    → split_lines text ≡ lines
    → load_files_db fuel (some text) ≡ parse_files fuel [] lines
unfolding load_files_db read_file_limited
load_files_text fuel text lines h e = ground (arith, e)

-- A record of at most 256 storable paths is always rendered. Loading that text gives the record
-- back if the paths, with four bytes more for each and three for the brackets, take less than 8192
-- bytes, and fails otherwise. Four rounds of the loop are enough.
pub load-render_files :
    (f : ℕ) (p : PackageFiles)
    → IsStorable p
    → (text : Bytes) × (render_files [] (p ∷ []) ≡ some text)
      × (load_files_db (4 + f) (some text)
          ≡ (if ltb (array_size p.files) files_text_size then done (p ∷ []) else failed))
load-render_files f p s =
    let few = s.few in
    let named = s.name_fits in
    let size = lines_size-le p.files s.paths in
    let fuel : 4 + f ≡ suc (suc (suc (suc f))) = omega arith in
    (
      text_of p,
      render_files_one p s,
      load_files_text (4 + f) (text_of p) (record_lines p)
            (simp length-append
              (omega (arith, length-lines_text p.files (close_bracket ∷ newline ∷ newline ∷ []))))
            (split_lines-text_of p s)
          ∙ rw fuel (parse_files-record f p s),
    )
