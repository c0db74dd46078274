-- ===== src/Neupak/Paths/Caches.antt =====
-- The file names that a package gets in the caches.
use native.Mathlib.Nat.{
  pow-suc, div-add-mod, mul-add-mod_self_right, div-add-mod', mod-lt, mod-eq_of_lt,
}
use packages_repo_main.Text.Laws.{append_text_fits, append_text_then, append_char_fits}
use Prim.Native.Nat.{bit_xor}
use packages_repo_main.Text.{codes, Bytes}
use packages_repo_main.Neupak.Paths.{
  fnv1a32, slash, package_cache_path, append_hex, hex_nibble, fnv1a32_from,
}
use packages_repo_main.Prelude.{
  ◌||◌, ◌&&◌, leb, true, Bool, append_assoc, ◌∙◌, refl, zero, length-append, ◌/◌, suc, append-nil,
  sym, ap, ◌++◌, [], some, arith, ◌+◌, ◌%◌, ◌*◌, ◌-◌, ◌^◌, length, ◌≡◌, ◌∷◌, ltb, ◌<◌,
  if◌then◌else◌, ℕ,
}

fnv1a32_from-lt : (hash : ℕ) (text : Bytes) → hash < 2 ^ 32 → fnv1a32_from hash text < 2 ^ 32
unfolding fnv1a32_from
fnv1a32_from-lt hash [] h = h
fnv1a32_from-lt hash (c ∷ cs) h =
    fnv1a32_from-lt (bit_xor hash c * 16777619 % 2 ^ 32) cs (omega arith)

-- The value of an upper-case hexadecimal digit.
abbrev pub hex_value : ℕ → ℕ
hex_value c = if ltb c b'A' then c - b'0' else c - b'A' + 10

-- The number that a text of hexadecimal digits stands for.
abbrev pub read_hex : ℕ → Bytes → ℕ
read_hex value [] = value
read_hex value (c ∷ cs) = read_hex (value * 16 + hex_value c) cs

-- Whether a character is a digit or one of the letters from A to F.
abbrev pub is_hex : ℕ → Bool
is_hex c = leb b'0' c && leb c b'9' || leb b'A' c && leb c b'F'

abbrev pub all_hex : Bytes → Bool
all_hex [] = true
all_hex (c ∷ cs) = is_hex c && all_hex cs

is_hex-hex_nibble : (v : ℕ) → is_hex (hex_nibble v) ≡ true
unfolding hex_nibble
is_hex-hex_nibble v = ground arith

hex_value-hex_nibble : (v : ℕ) → hex_value (hex_nibble v) ≡ v % 16
unfolding hex_nibble
hex_value-hex_nibble v = ground arith

pow_pos : (n : ℕ) → 0 < 16 ^ n
pow_pos zero = omega arith
pow_pos (suc n) = omega (arith, pow-suc 16 n, pow_pos n)

-- The last `n` digits of a value, and the digit before them.
mod_step :
    (high value p q : ℕ)
    → q ≡ p * 16
    → 0 < p
    → (high * 16 + value / p % 16) * p + value % p ≡ high * q + value % q
mod_step high value p q e pos =
    let low : value % p < p = mod-lt value pos in
    let a = value / p in
    let digit : a % 16 < 16 = omega arith in
    let split : value ≡ a / 16 * (p * 16) + (a % 16 * p + value % p) =
      omega (arith, ap (λ (t : ℕ). t * p) (div-add-mod a 16), div-add-mod' value p) in
    let small : a % 16 * p + value % p < p * 16 = grind arith in
    rw (e) (
      omega (
        arith,
        ap (λ v. v % (p * 16)) split,
        mul-add-mod_self_right (a / 16) (p * 16) (a % 16 * p + value % p),
        mod-eq_of_lt small,
      ))

-- Appending `digits` hexadecimal digits of a value that has no more adds a text that stands for the
-- value, where there is room.
append_hex-reads :
    (digits size : ℕ) (out : Bytes) (value : ℕ)
    → length out + digits < size
    → (text : Bytes) × (append_hex digits size out value ≡ some (out ++ text))
      × (length text ≡ digits)
      × (all_hex text ≡ true)
      × ((high : ℕ) → read_hex high text ≡ high * 16 ^ digits + value % 16 ^ digits)
unfolding append_hex
append_hex-reads zero size out value h =
    ([], ap some (sym (append-nil out)), refl, refl, λ high. omega arith)
append_hex-reads (suc n) size out value h =
    let (text, e, l, x, r) =
      append_hex-reads n size (out ++ hex_nibble (value / 16 ^ n) ∷ []) value
        (omega (arith, length-append {0})) in
    (
      hex_nibble (value / 16 ^ n) ∷ text,
      (rw (append_char_fits size out (hex_nibble (value / 16 ^ n)) (omega arith))
          (e ∙ ap some (append_assoc out (hex_nibble (value / 16 ^ n) ∷ []) text))),
      omega arith,
      rw (is_hex-hex_nibble (value / 16 ^ n)) x,
      λ high. rw (hex_value-hex_nibble (value / 16 ^ n)) (
          r (high * 16 + value / 16 ^ n % 16)
          ∙ mod_step high value (16 ^ n) (16 ^ suc n) (pow-suc 16 n) (pow_pos n)),
    )

-- In a buffer with room for it, the archive of a package is cached in the given directory under
-- eight hexadecimal digits, `0` to `9` and `A` to `F`, and `.zip`, and the digits are the 32-bit hash of the package's name.
pub package_cache_path-hash :
    (cache_dir name : Bytes) (size : ℕ)
    → length cache_dir + 13 < size
    → (hex : Bytes) × (package_cache_path cache_dir name size
        ≡ some (cache_dir ++ slash ∷ (hex ++ codes ".zip")))
      × (length hex ≡ 8)
      × (all_hex hex ≡ true)
      × (read_hex 0 hex ≡ fnv1a32 name)
unfolding package_cache_path
package_cache_path-hash cache_dir name size h =
    let start = cache_dir ++ slash ∷ [] in
    let (hex, e, l, x, r) =
      append_hex-reads 8 size start (fnv1a32 name) (omega (arith, length-append {0})) in
    (
      hex,
      append_text_then size [] cache_dir _ _
          (rw (append_char_fits size cache_dir slash (omega arith)) (
            rw e (
              append_text_fits size (start ++ hex) (codes ".zip") (omega (arith, length-append {0}))
              ∙ ap some (simp append_assoc))))
          (omega arith),
      l,
      x,
      r 0 ∙ omega (arith, fnv1a32_from-lt 2166136261 name (omega arith)),
    )
