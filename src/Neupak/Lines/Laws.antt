-- ===== src/Neupak/Lines/Laws.antt =====
-- Laws of the line reader: how each routine acts on a piece of a line, with the rest behind it.
use packages_repo_main.Neupak.Packages.{is_name_char, all_name_chars}
use packages_repo_main.Neupak.Lines.{
  clean, trim, hash, copy_until, trim_end, strip_from, split_lines, c_string,
}
use packages_repo_main.Text.{is_space, quote, newline, skip_spaces, Bytes}
use packages_repo_main.Prelude.{
  ◌∙◌, ap, ◌≢◌, refl, ◌==◌, length, [], arith, not, ◌+◌, ◌<◌, ◌∷◌, ◌&&◌, some, false, true, ◌≡◌,
  ◌++◌, Bool, ℕ,
}

-- The byte does not occur in the text.
abbrev pub lacks : ℕ → Bytes → Bool
lacks b [] = true
lacks b (c ∷ cs) = not (c == b) && lacks b cs

pub lacks-append : (b : ℕ) (xs ys : Bytes) → lacks b (xs ++ ys) ≡ (lacks b xs && lacks b ys)
lacks-append b [] ys = refl
lacks-append b (x ∷ xs) ys = ground (arith, lacks-append b xs ys)

pub c_string-lacks : (l : Bytes) → lacks 0 l ≡ true → c_string l ≡ l
unfolding c_string
c_string-lacks [] h = refl
c_string-lacks (c ∷ cs) h = ground (arith, c_string-lacks cs)

pub split_lines-line :
    (l rest : Bytes)
    → lacks newline l ≡ true
    → split_lines (l ++ newline ∷ rest) ≡ l ∷ split_lines rest
unfolding split_lines
split_lines-line [] rest h = refl
split_lines-line (c ∷ cs) rest h = ground (arith, split_lines-line cs rest)

-- Outside a quotation, text without quotes and `#` stays.
pub strip_from-plain :
    (l rest : Bytes)
    → lacks quote l ≡ true
    → lacks hash l ≡ true
    → strip_from false (l ++ rest) ≡ l ++ strip_from false rest
unfolding strip_from
strip_from-plain [] rest q h = refl
strip_from-plain (c ∷ cs) rest q h = ground (arith, strip_from-plain cs rest)

-- A quotation stays whatever it holds, a `#` too.
pub strip_from-quoted :
    (l rest : Bytes)
    → lacks quote l ≡ true
    → strip_from true (l ++ quote ∷ rest) ≡ l ++ quote ∷ strip_from false rest
unfolding strip_from
strip_from-quoted [] rest q = refl
strip_from-quoted (c ∷ cs) rest q = ground (arith, strip_from-quoted cs rest)

pub trim_end-ends : (l : Bytes) (y : ℕ) → is_space y ≡ false → trim_end (l ++ y ∷ []) ≡ l ++ y ∷ []
unfolding trim_end
trim_end-ends [] y h = ground arith
trim_end-ends (c ∷ []) y h = ground arith
trim_end-ends (c ∷ d ∷ cs) y h = ground (arith, trim_end-ends (d ∷ cs) y h)

pub skip_spaces_id : (c : ℕ) (cs : Bytes) → is_space c ≡ false → skip_spaces (c ∷ cs) ≡ c ∷ cs
unfolding skip_spaces
skip_spaces_id c cs h = ground arith

pub copy_until-stops :
    (stop size len : ℕ) (l rest : Bytes)
    → lacks stop l ≡ true
    → len + length l < size
    → copy_until stop size len (l ++ stop ∷ rest) ≡ some (l, stop ∷ rest)
unfolding copy_until
copy_until-stops stop size len [] rest s h = ground arith
copy_until-stops stop size len (c ∷ cs) rest s h =
    ground (arith, copy_until-stops stop size (len + 1) cs rest)

-- What is copied fits the buffer, holds no stop, and is the text up to the rest.
pub copy_until-eq-some :
    (stop size len : ℕ) (l out rest : Bytes)
    → copy_until stop size len l ≡ some (out, rest)
    → len < size
    → (l ≡ out ++ rest) × (len + length out < size) × (lacks stop out ≡ true)
unfolding copy_until
copy_until-eq-some stop size len [] out rest e h = ground (arith, e)
copy_until-eq-some stop size len (c ∷ cs) [] rest e h = ground (arith, e)
copy_until-eq-some stop size len (c ∷ cs) (o ∷ os) rest e h =
    ground (arith, e, copy_until-eq-some stop size (len + 1) cs os rest)

-- Text that a quotation on one line of a file can hold.
abbrev pub is_plain : Bytes → Bool
is_plain l = lacks quote l && (lacks newline l && lacks 0 l)

-- A valid name holds none of the bytes that the parsers look for.
pub all_name_chars-lacks :
    (b : ℕ) (name : Bytes)
    → is_name_char b ≡ false
    → all_name_chars name ≡ true
    → lacks b name ≡ true
unfolding all_name_chars
all_name_chars-lacks b [] f h = refl
all_name_chars-lacks b (c ∷ cs) f h =
    let e : is_name_char c ≡ true = ground (arith, h) in
    let ne : c ≢ b = λ s. cc (ap is_name_char s) in ground (arith, all_name_chars-lacks b cs f)

pub trim_framed :
    (c y : ℕ) (m : Bytes)
    → is_space c ≡ false
    → is_space y ≡ false
    → trim (c ∷ (m ++ y ∷ [])) ≡ c ∷ (m ++ y ∷ [])
unfolding trim
trim_framed c y m f l = rw (skip_spaces_id c (m ++ y ∷ []) f) (trim_end-ends (c ∷ m) y l)

pub clean_steps :
    (l m t : Bytes) → lacks 0 l ≡ true → strip_from false l ≡ m → trim m ≡ t → clean l ≡ t
unfolding clean
clean_steps l m t a b c = ap (λ x. trim (strip_from false x)) (c_string-lacks l a) ∙ (ap trim b ∙ c)
