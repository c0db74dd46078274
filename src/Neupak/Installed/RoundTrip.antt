-- ===== src/Neupak/Installed/RoundTrip.antt =====
-- What `write_installed_db` writes, `load_installed` reads back.
use packages_repo_main.Text.Laws.{append_char_fits, append_text_then, append_text_fits}
use packages_repo_main.Prelude.Outcome.{◌>>=◌}
use packages_repo_main.Neupak.Installed.Reading.{
  installed_line-strategy, clean-strategy_line, strategy_line, installed_line-version, text_of,
  clean-version_line, AllStorable, version_line, installed_line-section, clean-section_line,
  lacks-framed, section_line, valid_name-chars, record_text, IsStorable,
}
use packages_repo_main.Neupak.Lines.Laws.{split_lines-line, all_name_chars-lacks, lacks, is_plain}
use packages_repo_main.Neupak.{max_text, max_packages, InstalledPackage}
use packages_repo_main.Neupak.Lines.{open_bracket, close_bracket, split_lines, clean}
use packages_repo_main.Neupak.Packages.{all_name_chars, is_name_char}
use packages_repo_main.Neupak.Installed.{
  load_installed, render_installed, append_installed, default_strategy, set_version, installed_line,
  parse_installed,
}
use packages_repo_main.Text.{quote, codes, newline, Bytes}
use packages_repo_main.Prelude.{
  ◌*◌, append_assoc, ap, append-nil, ◌≤◌, length-append, map, ◌+◌, ◌∙◌, ◌∷◌, ◌++◌, refl, ◌<◌, arith,
  length, some, true, [], ◌≡◌, List, ℕ,
}

lacks-newline-plain : (v : Bytes) → is_plain v ≡ true → lacks newline v ≡ true
lacks-newline-plain v h = ground (arith, h)

-- The next line of a text is cleaned and looked at.
parse_installed-line :
    (db db' : List InstalledPackage) (line cleaned rest : Bytes)
    → lacks newline line ≡ true
    → clean line ≡ cleaned
    → installed_line db cleaned ≡ some db'
    → parse_installed db (split_lines (line ++ newline ∷ rest))
      ≡ parse_installed db' (split_lines rest)
unfolding parse_installed
parse_installed-line db db' line cleaned rest n c i =
    rw (split_lines-line line rest n, c) (rw (i, ◌>>=◌))

installed_line_blank : (db : List InstalledPackage) → installed_line db [] ≡ some db
unfolding installed_line
installed_line_blank db = refl

pub name_lacks-newline : (name : Bytes) → all_name_chars name ≡ true → lacks newline name ≡ true
unfolding is_name_char
name_lacks-newline name h = all_name_chars-lacks newline name refl h

abbrev opened : Bytes → InstalledPackage
opened name = record { name = name; version = []; strategy = [] }

-- The four lines of a record add it to the database.
parse_installed-record :
    (db : List InstalledPackage) (p : InstalledPackage) (rest : Bytes)
    → IsStorable p
    → length db < max_packages
    → parse_installed db (split_lines (record_text p rest))
      ≡ parse_installed (db ++ p ∷ []) (split_lines rest)
unfolding clean
parse_installed-record db p rest s room =
    let (chars, _) = valid_name-chars p.name s.name_valid in
    parse_installed-line db (db ++ opened p.name ∷ []) (section_line p.name) _ _
      (lacks-framed newline p.name close_bracket (name_lacks-newline p.name chars) refl)
      (clean-section_line p.name chars)
      (installed_line-section db p.name s.name_valid s.name_fits room)
    ∙ parse_installed-line (db ++ opened p.name ∷ [])
        (db ++ set_version p.version (opened p.name) ∷ []) (version_line p.version)
        (version_line p.version) _
        (lacks-framed newline (codes "version = \"" ++ p.version) quote
          (lacks-newline-plain p.version s.version_plain) refl)
        (clean-version_line p.version s.version_plain)
        (installed_line-version db (opened p.name) p.version s.version_plain s.version_fits)
    ∙ parse_installed-line (db ++ set_version p.version (opened p.name) ∷ []) (db ++ p ∷ [])
        (strategy_line p.strategy) (strategy_line p.strategy) _
        (lacks-framed newline (codes "strategy = \"" ++ p.strategy) quote
          (lacks-newline-plain p.strategy s.strategy_plain) refl)
        (clean-strategy_line p.strategy s.strategy_plain)
        (installed_line-strategy db (set_version p.version (opened p.name)) p.strategy
          s.strategy_plain s.strategy_fits)
    ∙ parse_installed-line (db ++ p ∷ []) (db ++ p ∷ []) [] [] rest refl refl
        (installed_line_blank (db ++ p ∷ []))

parse_installed-text_of :
    (before db : List InstalledPackage)
    → AllStorable db
    → length before + length db ≤ max_packages
    → parse_installed before (split_lines (text_of db)) ≡ some (before ++ db)
unfolding parse_installed split_lines
parse_installed-text_of before [] s h = rw append-nil
parse_installed-text_of before (p ∷ ps) s h =
    parse_installed-record before p (text_of ps) s.0 (omega arith)
    ∙ parse_installed-text_of (before ++ p ∷ []) ps s.1
        (omega (arith, length-append before (p ∷ [])))
    ∙ ap some (append_assoc before (p ∷ []) ps)

default_strategy-stored :
    (db : List InstalledPackage) → AllStorable db → map default_strategy db ≡ db
unfolding default_strategy
default_strategy-stored [] s = refl
default_strategy-stored (p ∷ ps) s =
    ground (arith, s.0.strategy_there, default_strategy-stored ps s.1)

-- The bytes that a storable record takes.
abbrev record_size : InstalledPackage → ℕ
record_size p = 31 + length p.name + length p.version + length p.strategy

-- A record is appended whole where there is room for it.
append_installed_fits :
    (out : Bytes) (p : InstalledPackage)
    → length out + record_size p < max_text
    → append_installed out p ≡ some (out ++ record_text p [])
unfolding append_installed
append_installed_fits out p h = rw (append_char_fits max_text out open_bracket (omega arith)) (
    append_text_then max_text (out ++ open_bracket ∷ []) p.name _ _
      (append_text_then max_text _ (codes "]\nversion = \"") _ _
        (append_text_then max_text _ p.version _ _
          (append_text_then max_text _ (codes "\"\nstrategy = \"") _ _
            (append_text_then max_text _ p.strategy _ _
              (append_text_fits max_text _ (codes "\"\n\n") (omega (arith, length-append {0}))
                ∙ ap some (simp append_assoc))
              (omega (arith, length-append {0})))
            (omega (arith, length-append {0})))
          (omega (arith, length-append {0})))
        (omega (arith, length-append {0})))
      (omega (arith, length-append {0})))

length-record_text :
    (p : InstalledPackage) (rest : Bytes)
    → length (record_text p rest) ≡ record_size p + length rest
length-record_text p rest = simp length-append (omega arith)

record_size-le : (p : InstalledPackage) → IsStorable p → record_size p ≤ 160
record_size-le p s = omega arith

length-text_of :
    (db : List InstalledPackage) → AllStorable db → length (text_of db) ≤ 160 * length db
length-text_of [] s = omega arith
length-text_of (p ∷ ps) s =
    omega (arith, length-record_text p (text_of ps), length-text_of ps s.1, record_size-le p s.0)

render_installed_fits :
    (out : Bytes) (db : List InstalledPackage)
    → AllStorable db
    → length out + 160 * length db < max_text
    → render_installed out db ≡ some (out ++ text_of db)
unfolding render_installed
render_installed_fits out [] s h = rw append-nil
render_installed_fits out (p ∷ ps) s h =
    let size = record_size-le p s.0 in
    rw (append_installed_fits out p (omega arith)) (
      render_installed_fits (out ++ record_text p []) ps s.1
        (omega (arith, length-append out (record_text p []), length-record_text p []))
      ∙ ap some (simp append_assoc))

load_text :
    (text : Bytes) (db : List InstalledPackage)
    → parse_installed [] (split_lines text) ≡ some db
    → map default_strategy db ≡ db
    → length text < max_text
    → load_installed (some text) ≡ some db
unfolding load_installed
load_text text db parsed stored h = ground (arith, parsed, stored)

-- A database of at most 96 records, each of them storable, is always written, and loading the text
-- that was written gives the database back: every record, in the same order.
pub load-render :
    (db : List InstalledPackage)
    → AllStorable db
    → length db ≤ max_packages
    → (text : Bytes) × (render_installed [] db ≡ some text) × (load_installed (some text) ≡ some db)
load-render db s h = (
  text_of db,
  render_installed_fits [] db s (omega arith),
  load_text (text_of db) db (parse_installed-text_of [] db s (omega (arith, h)))
      (default_strategy-stored db s) (omega (arith, length-text_of db s)),
)
