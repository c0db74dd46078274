-- ===== src/Neupak/Paths/Safe.antt =====
-- Which archive paths are accepted, and why what comes out cannot leave the target root.
use packages_repo_main.Neupak.{over_root}
use packages_repo_main.Text.Laws.{append_text-if}
use packages_repo_main.Neupak.Lines.{extend_first, is_empty}
use packages_repo_main.Text.{codes, streq, append_char, Bytes}
use packages_repo_main.Neupak.Paths.{
  destination_path, prefixed_path, archive_path_to_final, split_on, is_bad_component, slash,
  is_separator, final_components,
}
use packages_repo_main.Prelude.{
  Option-cases, ◌⊎◌, Option, ap, ◌==◌, ◌∙◌, inr, inl, length-map, Bool-cases, refl, map, false,
  append_assoc, length-append, append-nil, arith, none, some, ◌+◌, ltb, not, ◌&&◌, ◌||◌, [], ◌≡◌,
  ◌++◌, ◌<◌, true, length, Bool, ◌∷◌, if◌then◌else◌, List, ℕ,
}

-- The components joined by slashes.
abbrev pub join : List Bytes → Bytes
join [] = []
join (c ∷ []) = c
join (c ∷ d ∷ ds) = c ++ slash ∷ join (d ∷ ds)

-- A component that a path must not have inside: the empty one, `..` or `...`.
abbrev pub is_forbidden : Bytes → Bool
is_forbidden c = streq c [] || streq c (codes "..") || streq c (codes "...")

is_bad_component-forbidden : (c : Bytes) → is_bad_component c ≡ is_forbidden c
unfolding is_bad_component streq
is_bad_component-forbidden [] = refl
is_bad_component-forbidden (x ∷ []) = ground arith
is_bad_component-forbidden (x ∷ y ∷ []) = ground arith
is_bad_component-forbidden (x ∷ y ∷ z ∷ []) = ground arith
is_bad_component-forbidden (x ∷ y ∷ z ∷ w ∷ rest) = ground arith

-- No component is forbidden, but for an empty one at the end.
abbrev pub safe_components : List Bytes → Bool
safe_components [] = true
safe_components (c ∷ []) = is_empty c || not (is_forbidden c)
safe_components (c ∷ d ∷ ds) = not (is_forbidden c) && safe_components (d ∷ ds)

abbrev pub to_slash : ℕ → ℕ
to_slash c = if is_separator c then slash else c

-- The same test with the code's own notion of a bad component.
abbrev good_components : List Bytes → Bool
good_components [] = true
good_components (c ∷ []) = is_empty c || not (is_bad_component c)
good_components (c ∷ d ∷ ds) = not (is_bad_component c) && good_components (d ∷ ds)

good_components-safe : (cs : List Bytes) → good_components cs ≡ safe_components cs
good_components-safe [] = refl
good_components-safe (c ∷ []) = rw (is_bad_component-forbidden c) refl
good_components-safe (c ∷ d ∷ ds) =
    rw (is_bad_component-forbidden c, good_components-safe (d ∷ ds)) refl

final_components-good :
    (size : ℕ) (out : Bytes) (cs : List Bytes)
    → length out < size
    → final_components size out cs ≡ (
        if good_components cs && ltb (length out + length (join cs)) size
        then some (out ++ join cs)
        else none)
unfolding final_components append_char
final_components-good size out [] h = ground (arith, append-nil out)
final_components-good size out (c ∷ []) h =
    ground (arith, append_text-if size out c h, append-nil out)
final_components-good size out (c ∷ d ∷ ds) h = ground (
  arith,
  append_text-if size out c h,
  length-append out c,
  length-append (out ++ c) (slash ∷ []),
  length-append c (slash ∷ join (d ∷ ds)),
  append_assoc (out ++ c) (slash ∷ []) (join (d ∷ ds)),
  append_assoc out c (slash ∷ join (d ∷ ds)),
  final_components-good size ((out ++ c) ++ slash ∷ []) (d ∷ ds),
)

final_components-join :
    (size : ℕ) (out : Bytes) (cs : List Bytes)
    → length out < size
    → final_components size out cs ≡ (
        if safe_components cs && ltb (length out + length (join cs)) size
        then some (out ++ join cs)
        else none)
final_components-join size out cs h =
    cc (good_components-safe cs, final_components-good size out cs h)

abbrev NonEmpty : List Bytes → Type 0
NonEmpty [] = ⊥
NonEmpty (c ∷ cs) = Unit {0}

split_on-NonEmpty : (p : ℕ → Bool) (s : Bytes) → NonEmpty (split_on p s)
unfolding split_on
split_on-NonEmpty p [] = tt
split_on-NonEmpty p (c ∷ cs) = elim (Bool-cases (p c)) [
  | inl e ↦ rw e tt
  | inr e ↦ rw e (extended (split_on p cs))
]
  where
    extended : (ls : List Bytes) → NonEmpty (extend_first c ls)
    extended [] = tt
    extended (l ∷ ls) = tt

join-extend_first : (c : ℕ) (ls : List Bytes) → NonEmpty ls → join (extend_first c ls) ≡ c ∷ join ls
join-extend_first c [] h = absurd h
join-extend_first c (l ∷ []) h = refl
join-extend_first c (l ∷ m ∷ ms) h = refl

join-cons_empty : (ls : List Bytes) → NonEmpty ls → join ([] ∷ ls) ≡ slash ∷ join ls
join-cons_empty [] h = absurd h
join-cons_empty (l ∷ ls) h = refl

-- Splitting and joining turns every separator into a slash.
join-split_on : (s : Bytes) → join (split_on is_separator s) ≡ map to_slash s
unfolding split_on
join-split_on [] = refl
join-split_on (c ∷ cs) = ground (
  arith,
  join-split_on cs,
  join-extend_first c (split_on is_separator cs) (split_on-NonEmpty is_separator cs),
  join-cons_empty (split_on is_separator cs) (split_on-NonEmpty is_separator cs),
)

-- The archive path is not empty, does not start with a separator, and has safe components.
abbrev pub is_safe_path : Bytes → Bool
is_safe_path [] = false
is_safe_path (c ∷ cs) = not (is_separator c) && safe_components (split_on is_separator (c ∷ cs))

length-map-to_slash : (s : Bytes) → length (map to_slash s) ≡ length s
length-map-to_slash s = length-map s to_slash

-- An archive path is accepted exactly when it is safe and fits the buffer with a leading slash and
-- the terminator; the result is a slash and the path, with each backslash turned into a slash.
pub archive_path_to_final-if :
    (size : ℕ) (path : Bytes)
    → archive_path_to_final size path ≡ (
        if is_safe_path path && ltb (length path + 1) size
        then some (slash ∷ map to_slash path)
        else none)
unfolding archive_path_to_final append_char
archive_path_to_final-if size [] = refl
archive_path_to_final-if size (c ∷ cs) = ground (
  arith,
  final_components-join size (slash ∷ []) (split_on is_separator (c ∷ cs)),
  join-split_on (c ∷ cs),
  length-map-to_slash (c ∷ cs),
)

abbrev pub is_slash : ℕ → Bool
is_slash c = c == slash

split_on-to_slash : (s : Bytes) → split_on is_slash (map to_slash s) ≡ split_on is_separator s
unfolding split_on is_separator
split_on-to_slash [] = refl
split_on-to_slash (c ∷ cs) = ground (arith, split_on-to_slash cs)

-- The path is a root followed by a slash and components none of which leads out of it: none is
-- empty, `..` or `...`, but for an empty one at the end.
pub record IsUnder (root path : Bytes) : Type 0 where
  pub rest : Bytes
  pub splits : path ≡ root ++ slash ∷ rest
  pub safe : safe_components (split_on is_slash rest) ≡ true

pub final_path-IsUnder :
    (size : ℕ) (path out : Bytes) → archive_path_to_final size path ≡ some out → IsUnder [] out
final_path-IsUnder size [] out e = absurd (ground (arith, e, archive_path_to_final-if size []))
final_path-IsUnder size (c ∷ cs) out e = record {
  rest = map to_slash (c ∷ cs);
  splits = ground (arith, e, archive_path_to_final-if size (c ∷ cs));
  safe =
      rw (split_on-to_slash (c ∷ cs)) (ground (arith, e, archive_path_to_final-if size (c ∷ cs)));
}

prefixed_path-eq-some :
    (root logical dest : Bytes) (size : ℕ)
    → 0 < size
    → prefixed_path root logical size ≡ some dest
    → dest ≡ root ++ logical
unfolding prefixed_path
prefixed_path-eq-some root [] dest size z e = cc
prefixed_path-eq-some root (c ∷ cs) dest size z e =
    ground (arith, e, append_text-if size [] root, append_text-if size root (c ∷ cs))

IsUnder-prefix :
    (root path dest : Bytes) → IsUnder [] path → dest ≡ root ++ path → IsUnder root dest
IsUnder-prefix root path dest u e = record {
  rest = u.rest;
  splits = e ∙ ap (◌++◌ root) u.splits;
  safe = u.safe;
}

-- Wherever an entry of an archive is installed to, that path stays under the target root or, for
-- the boot strategy, under the boot partition that was found.
pub destination_path-IsUnder :
    (sysroot : Bytes) (boot_root : Option Bytes) (strategy archive_path logical dest : Bytes)
    (size : ℕ)
    → 0 < size
    → archive_path_to_final size archive_path ≡ some logical
    → destination_path sysroot boot_root strategy logical size ≡ some dest
    → IsUnder sysroot dest ⊎ ((root : Bytes) × (boot_root ≡ some root) × IsUnder root dest)
unfolding destination_path
destination_path-IsUnder sysroot boot_root strategy archive_path logical dest size z a d =
    elim (Bool-cases (streq strategy over_root)) [
      | inl r ↦ inl (
          IsUnder-prefix sysroot logical dest (final_path-IsUnder size archive_path logical a)
            (prefixed_path-eq-some sysroot logical dest size z (ground (arith, d, r))))
      | inr r ↦ elim (Option-cases boot_root) [
        | inl n ↦ absurd (ground (arith, d, r, n))
        | inr (root, b) ↦ inr (
          root,
          b,
          IsUnder-prefix root logical dest (final_path-IsUnder size archive_path logical a)
              (prefixed_path-eq-some root logical dest size z (ground (arith, d, r, b))),
        )
      ]
    ]
