-- ===== src/Neupak/Files/Items.antt =====
-- How the array that `load_files_db` has collected is parsed.
use packages_repo_main.Prelude.Outcome.{done}
use packages_repo_main.Neupak.Lines.{open_bracket, close_bracket}
use packages_repo_main.Neupak.{max_path, max_files}
use packages_repo_main.Neupak.Files.Reading.{items, item_text, ArePaths, IsPath}
use packages_repo_main.Neupak.Lines.Laws.{copy_until-stops, lacks}
use packages_repo_main.Text.{quote, is_space, Bytes}
use packages_repo_main.Neupak.Arrays.{
  parse_file_array, comma, file_array_from, file_round, array_item,
}
use packages_repo_main.Prelude.{
  ◌∙◌, ◌-◌, ap, length-append, append-nil, append_assoc, ◌*◌, [], arith, refl, suc, ◌++◌, ◌≤◌, some,
  true, ◌+◌, ◌<◌, ◌≡◌, ◌∷◌, length, List, ℕ,
}

array_item-item :
    (size : ℕ) (path rest : Bytes)
    → lacks quote path ≡ true
    → length path < size
    → array_item size (path ++ quote ∷ rest) ≡ some (path, rest)
unfolding array_item
array_item-item size path rest q h = ground (arith, copy_until-stops quote size 0 path rest)

file_round-item :
    (out : List Bytes) (path rest : Bytes)
    → IsPath path
    → length out < max_files
    → file_round out (32 ∷ (item_text path ++ rest)) ≡ some (true, out ++ path ∷ [], comma ∷ rest)
unfolding file_round is_space
file_round-item out path rest p h = ground (
  arith,
  append_assoc path (quote ∷ comma ∷ []) rest,
  array_item-item max_path path (comma ∷ rest) (ground (arith, p.plain)) p.fits,
)

file_round-comma :
    (out : List Bytes) (rest : Bytes) → file_round out (comma ∷ rest) ≡ some (true, out, rest)
unfolding file_round is_space
file_round-comma out rest = refl

file_array_from-step :
    (f : ℕ) (out out' : List Bytes) (value rest : Bytes)
    → file_round out value ≡ some (true, out', rest)
    → file_array_from (suc f) out value ≡ file_array_from f out' rest
unfolding file_array_from
file_array_from-step f out out' value rest e = rw (e, file_array_from)

-- Two rounds for each item, and one for the end.
abbrev rounds : List Bytes → ℕ → ℕ
rounds [] f = suc f
rounds (p ∷ ps) f = suc (suc (rounds ps f))

rounds_lem : (ps : List Bytes) (f : ℕ) → rounds ps f ≡ 2 * length ps + suc f
rounds_lem [] f = omega arith
rounds_lem (p ∷ ps) f = omega (arith, rounds_lem ps f)

file_array_from-end :
    (f : ℕ) (out : List Bytes) → file_array_from (suc f) out (32 ∷ close_bracket ∷ []) ≡ done out
unfolding file_array_from is_space
file_array_from-end f out = refl

-- The collected array is read back.
file_array_from-items :
    (f : ℕ) (out paths : List Bytes)
    → ArePaths paths
    → length out + length paths ≤ max_files
    → file_array_from (rounds paths f) out (items paths ++ 32 ∷ close_bracket ∷ [])
      ≡ done (out ++ paths)
file_array_from-items f out [] a h = rw append-nil (file_array_from-end f out)
file_array_from-items f out (p ∷ ps) a h =
    let tail = items ps ++ 32 ∷ close_bracket ∷ [] in
    let here = out ++ p ∷ [] in
    ap (λ t. file_array_from (rounds (p ∷ ps) f) out (32 ∷ t))
      (append_assoc (item_text p) (items ps) (32 ∷ close_bracket ∷ []))
    ∙ file_array_from-step (suc (rounds ps f)) out here (32 ∷ (item_text p ++ tail)) (comma ∷ tail)
        (file_round-item out p tail a.0 (omega arith))
    ∙ file_array_from-step (rounds ps f) here here (comma ∷ tail) tail (file_round-comma here tail)
    ∙ file_array_from-items f here ps a.1 (omega (arith, length-append out (p ∷ [])))
    ∙ ap done (append_assoc out (p ∷ []) ps)

length-items : (ps : List Bytes) → 2 * length ps ≤ length (items ps)
length-items [] = omega arith
length-items (p ∷ ps) = omega (
  arith,
  length-items ps,
  length-append (item_text p) (items ps),
  length-append p (quote ∷ comma ∷ []),
)

abbrev pub array_text : List Bytes → Bytes
array_text paths = open_bracket ∷ (items paths ++ 32 ∷ close_bracket ∷ [])

pub parse_file_array-array_text :
    (paths : List Bytes)
    → ArePaths paths
    → length paths ≤ max_files
    → parse_file_array (array_text paths) ≡ done paths
unfolding parse_file_array is_space
parse_file_array-array_text paths a h =
    let text = items paths ++ 32 ∷ close_bracket ∷ [] in
    let spare = length text - 2 * length paths in
    let fuel : suc (length text) ≡ rounds paths spare = omega (
      arith,
      rounds_lem paths spare,
      length-items paths,
      length-append (items paths) (32 ∷ close_bracket ∷ []),
    ) in
    rw fuel (file_array_from-items spare [] paths a (omega (arith, h)))
