-- ===== src/Neupak/Installed/Reading.antt =====
-- How `load_installed` reads the lines that `write_installed_db` writes.
use packages_repo_main.Text.Laws.{strlcpy_fits}
use packages_repo_main.Neupak.Lines.Values.{parse_quoted-quotes, plain_section-name}
use packages_repo_main.Neupak.Installed.{
  set_strategy, installed_value, installed_field, set_version, installed_line, update_last,
}
use packages_repo_main.Neupak.Lines.Laws.{
  trim_end-ends, trim_framed, strip_from-quoted, all_name_chars-lacks, lacks-append, clean_steps,
  lacks, is_plain, strip_from-plain,
}
use packages_repo_main.Neupak.Packages.{is_name_char, all_name_chars, valid_name}
use packages_repo_main.Neupak.Lines.{
  parse_section_header, split_key_value, hash, strip_from, is_empty, close_bracket, open_bracket,
  clean,
}
use packages_repo_main.Text.{streq, is_space, newline, quote, codes, Bytes}
use packages_repo_main.Neupak.{max_packages, max_strategy, max_version, max_name, InstalledPackage}
use packages_repo_main.Prelude.{
  ◌∙◌, some, refl, ap, arith, ◌==◌, false, ◌<◌, length, true, [], ◌≡◌, ◌++◌, ◌∷◌, List, ℕ,
}

-- A record that the text format can hold: its strings have no quote, line feed or NUL and fit their
-- buffers, its name is valid and its strategy is there.
pub record IsStorable (p : InstalledPackage) : Type 0 where
  pub name_valid : valid_name p.name ≡ true
  pub name_fits : length p.name < max_name
  pub version_plain : is_plain p.version ≡ true
  pub version_fits : length p.version < max_version
  pub strategy_plain : is_plain p.strategy ≡ true
  pub strategy_fits : length p.strategy < max_strategy
  pub strategy_there : is_empty p.strategy ≡ false

abbrev pub AllStorable : List InstalledPackage → Type 0
AllStorable [] = Unit {0}
AllStorable (p ∷ ps) = IsStorable p × AllStorable ps

abbrev pub section_line : Bytes → Bytes
section_line name = open_bracket ∷ (name ++ close_bracket ∷ [])

abbrev pub version_line : Bytes → Bytes
version_line v = codes "version = \"" ++ (v ++ quote ∷ [])

abbrev pub strategy_line : Bytes → Bytes
strategy_line s = codes "strategy = \"" ++ (s ++ quote ∷ [])

-- The four lines of a record.
abbrev pub record_text : InstalledPackage → Bytes → Bytes
record_text p rest =
    section_line p.name
    ++ (newline
        ∷ (version_line p.version
            ++ (newline ∷ (strategy_line p.strategy ++ (newline ∷ newline ∷ rest)))))

abbrev pub text_of : List InstalledPackage → Bytes
text_of [] = []
text_of (p ∷ ps) = record_text p (text_of ps)

pub lacks-framed :
    (b : ℕ) (l : Bytes) (y : ℕ) → lacks b l ≡ true → (y == b) ≡ false → lacks b (l ++ y ∷ []) ≡ true
lacks-framed b l y h e = ground (arith, lacks-append b l (y ∷ []))

pub clean-section_line :
    (name : Bytes) → all_name_chars name ≡ true → clean (section_line name) ≡ section_line name
unfolding is_name_char is_space strip_from
clean-section_line name h =
    clean_steps (section_line name) (section_line name) (section_line name)
      (lacks-framed 0 name close_bracket (all_name_chars-lacks 0 name refl h) refl)
      (strip_from-plain (open_bracket ∷ name) (close_bracket ∷ [])
        (all_name_chars-lacks quote name refl h) (all_name_chars-lacks hash name refl h))
      (trim_framed open_bracket close_bracket name refl refl)

pub clean-version_line : (v : Bytes) → is_plain v ≡ true → clean (version_line v) ≡ version_line v
unfolding strip_from is_space
clean-version_line v h =
    clean_steps (version_line v) (version_line v) (version_line v)
      (lacks-framed 0 v quote (ground (arith, h)) refl)
      (ap (λ (t : Bytes). codes "version = \"" ++ t) (strip_from-quoted v [] (ground (arith, h))))
      (trim_framed b'v' quote (codes "ersion = \"" ++ v) refl refl)

pub clean-strategy_line :
    (v : Bytes) → is_plain v ≡ true → clean (strategy_line v) ≡ strategy_line v
unfolding strip_from is_space
clean-strategy_line v h =
    clean_steps (strategy_line v) (strategy_line v) (strategy_line v)
      (lacks-framed 0 v quote (ground (arith, h)) refl)
      (ap (λ (t : Bytes). codes "strategy = \"" ++ t) (strip_from-quoted v [] (ground (arith, h))))
      (trim_framed b's' quote (codes "trategy = \"" ++ v) refl refl)

pub valid_name-chars :
    (name : Bytes) → valid_name name ≡ true → (all_name_chars name ≡ true) × (is_empty name ≡ false)
unfolding valid_name
valid_name-chars [] h = cc
valid_name-chars (c ∷ cs) h = (h, refl)

pub update_last-snoc :
    (f : InstalledPackage → InstalledPackage) (db : List InstalledPackage) (p : InstalledPackage)
    → update_last f (db ++ p ∷ []) ≡ db ++ f p ∷ []
update_last-snoc f [] p = refl
update_last-snoc f (x ∷ []) p = refl
update_last-snoc f (x ∷ y ∷ ys) p = ap (◌∷◌ x) (update_last-snoc f (y ∷ ys) p)

pub name_lacks_bracket :
    (name : Bytes) → all_name_chars name ≡ true → lacks close_bracket name ≡ true
unfolding is_name_char
name_lacks_bracket name h = all_name_chars-lacks close_bracket name refl h

pub name_lacks-quote : (name : Bytes) → all_name_chars name ≡ true → lacks quote name ≡ true
unfolding is_name_char
name_lacks-quote name h = all_name_chars-lacks quote name refl h

-- A section line opens a record.
pub installed_line-section :
    (db : List InstalledPackage) (name : Bytes)
    → valid_name name ≡ true
    → length name < max_name
    → length db < max_packages
    → installed_line db (section_line name)
      ≡ some (db ++ record { name = name; version = []; strategy = [] } ∷ [])
unfolding installed_line valid_name
installed_line-section db [] v f r = cc v
installed_line-section db (c ∷ cs) v f r =
    let (chars, _) = valid_name-chars (c ∷ cs) v in
    let header =
      plain_section-name max_name c cs [] (name_lacks_bracket (c ∷ cs) chars)
        (name_lacks-quote (c ∷ cs) chars) f in
    ground (arith, header, v, strlcpy_fits max_name (c ∷ cs))

abbrev pub quoted_value : Bytes → Bytes
quoted_value v = quote ∷ (v ++ quote ∷ [])

pub split-version_line :
    (v : Bytes) → split_key_value (version_line v) ≡ some (codes "version", quoted_value v)
unfolding split_key_value is_space
split-version_line v = rw (trim_end-ends v quote refl)

pub split-strategy_line :
    (v : Bytes) → split_key_value (strategy_line v) ≡ some (codes "strategy", quoted_value v)
unfolding split_key_value is_space
split-strategy_line v = rw (trim_end-ends v quote refl)

pub installed_field-snoc :
    (db : List InstalledPackage) (p : InstalledPackage) (cleaned : Bytes) (entry : Bytes × Bytes)
    → split_key_value cleaned ≡ some entry
    → installed_field (db ++ p ∷ []) cleaned ≡ installed_value (db ++ p ∷ []) entry
unfolding installed_field
installed_field-snoc [] p cleaned entry e = rw (e, installed_field)
installed_field-snoc (x ∷ xs) p cleaned entry e = rw (e, installed_field)

pub installed_line-version :
    (db : List InstalledPackage) (p : InstalledPackage) (v : Bytes)
    → is_plain v ≡ true
    → length v < max_version
    → installed_line (db ++ p ∷ []) (version_line v) ≡ some (db ++ set_version v p ∷ [])
unfolding installed_line parse_section_header installed_value streq
installed_line-version db p v h f =
    installed_field-snoc db p (version_line v) (codes "version", quoted_value v)
      (split-version_line v)
    ∙ rw (parse_quoted-quotes max_version v [] (ground (arith, h)) f)
        (ap some (update_last-snoc (set_version v) db p))

pub installed_line-strategy :
    (db : List InstalledPackage) (p : InstalledPackage) (v : Bytes)
    → is_plain v ≡ true
    → length v < max_strategy
    → installed_line (db ++ p ∷ []) (strategy_line v) ≡ some (db ++ set_strategy v p ∷ [])
unfolding installed_line parse_section_header installed_value streq
installed_line-strategy db p v h f =
    installed_field-snoc db p (strategy_line v) (codes "strategy", quoted_value v)
      (split-strategy_line v)
    ∙ rw (parse_quoted-quotes max_strategy v [] (ground (arith, h)) f)
        (ap some (update_last-snoc (set_strategy v) db p))
