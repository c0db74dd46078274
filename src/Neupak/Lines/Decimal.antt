-- ===== src/Neupak/Lines/Decimal.antt =====
-- Numbers in text: `append_u64` and `parse_u64`.
use packages_repo_main.Text.Laws.{append_text_fits}
use packages_repo_main.Neupak.Lines.Laws.{skip_spaces_id}
use packages_repo_main.Neupak.Packages.{is_digit}
use packages_repo_main.Text.{is_space, skip_spaces, Bytes}
use packages_repo_main.Neupak.Lines.{append_u64, parse_u64, u64_mod, u64_digits, read_digits}
use native.Mathlib.Nat.{pow-suc}
use packages_repo_main.Prelude.{
  ◌≤◌, length, some, false, ◌++◌, zero, ◌∙◌, inr, ◌-◌, subst, ◌*◌, inl, refl, ◌==◌, ◌%◌, ◌&&◌, ◌+◌,
  arith, Bool-cases, ◌/◌, [], ◌∷◌, suc, ◌^◌, true, ◌≡◌, Bool, ◌<◌, ℕ,
}

-- Reading the last digit of a value behind the others gives the value.
read_digits-digit :
    (v : ℕ) (ds : Bytes)
    → v < u64_mod
    → read_digits (v / 10) ((b'0' + v % 10) ∷ ds) ≡ read_digits v ds
unfolding read_digits
read_digits-digit v ds w =
    let e : (v / 10 * 10 + (b'0' + v % 10 - b'0')) % u64_mod ≡ v = omega arith in
    let d : is_digit (b'0' + v % 10) ≡ true = ground arith in rw (d, e)

-- The value of a text of digits is read back, whatever digits stand behind.
read_digits-u64_digits :
    (room v : ℕ) (ds : Bytes)
    → v < 10 ^ room
    → v < u64_mod
    → read_digits 0 (u64_digits room v ds) ≡ read_digits v ds
unfolding u64_digits
read_digits-u64_digits zero v ds h w = let z : v ≡ 0 = omega (arith, h) in rw z
read_digits-u64_digits (suc room) v ds h w = elim (Bool-cases (v / 10 == 0)) [
  | inl e ↦ rw e (
      let z : v / 10 ≡ 0 = ground arith in
      subst (λ a. read_digits a ((b'0' + v % 10) ∷ ds) ≡ read_digits v ds) z
        (read_digits-digit v ds w))
  | inr e ↦ rw e (
      read_digits-u64_digits room (v / 10) ((b'0' + v % 10) ∷ ds)
        (ground (arith, h, pow-suc 10 room)) (omega arith)
      ∙ read_digits-digit v ds w)
]

-- All the bytes of the text are spaces.
abbrev pub all_spaces : Bytes → Bool
all_spaces [] = true
all_spaces (c ∷ cs) = is_space c && all_spaces cs

skip_spaces-all_spaces : (l : Bytes) → all_spaces l ≡ true → skip_spaces l ≡ []
unfolding skip_spaces
skip_spaces-all_spaces [] h = refl
skip_spaces-all_spaces (c ∷ cs) h = ground (arith, skip_spaces-all_spaces cs)

read_digits-space : (v : ℕ) (l : Bytes) → all_spaces l ≡ true → read_digits v l ≡ (v, l)
unfolding read_digits is_space
read_digits-space v [] h = refl
read_digits-space v (c ∷ cs) h = ground arith

u64_digits-append :
    (room v : ℕ) (ds tail : Bytes) → u64_digits room v ds ++ tail ≡ u64_digits room v (ds ++ tail)
unfolding u64_digits
u64_digits-append zero v ds tail = refl
u64_digits-append (suc room) v ds tail =
    ground (arith, u64_digits-append room (v / 10) ((b'0' + v % 10) ∷ ds) tail)

-- The text starts with a digit.
u64_digits-starts :
    (room v d : ℕ) (ds : Bytes)
    → is_digit d ≡ true
    → (c : ℕ) × (cs : Bytes) × (u64_digits room v (d ∷ ds) ≡ c ∷ cs) × (is_digit c ≡ true)
unfolding u64_digits
u64_digits-starts zero v d ds h = (d, ds, refl, h)
u64_digits-starts (suc room) v d ds h =
    let k : is_digit (b'0' + v % 10) ≡ true = unfold is_digit in ground arith in
    elim (Bool-cases (v / 10 == 0)) [
      | inl e ↦ rw e (b'0' + v % 10, d ∷ ds, refl, k)
      | inr e ↦ rw e (u64_digits-starts room (v / 10) (b'0' + v % 10) (d ∷ ds) k)
    ]

is_digit-space : (c : ℕ) → is_digit c ≡ true → is_space c ≡ false
unfolding is_digit is_space
is_digit-space c h = ground arith

-- 24 digits are enough for 64 bits, so the text is never empty.
u64_digits_first :
    (v : ℕ) (tail : Bytes)
    → (c : ℕ) × (cs : Bytes) × (u64_digits 24 v tail ≡ c ∷ cs) × (is_digit c ≡ true)
unfolding u64_digits
u64_digits_first v tail =
    let k : is_digit (b'0' + v % 10) ≡ true = unfold is_digit in ground arith in
    elim (Bool-cases (v / 10 == 0)) [
      | inl e ↦ rw e (b'0' + v % 10, tail, refl, k)
      | inr e ↦ rw e (u64_digits-starts 23 (v / 10) (b'0' + v % 10) tail k)
    ]

-- The text of a 64-bit number is read back, with any spaces behind it.
parse_u64-u64_digits :
    (v : ℕ) (tail : Bytes)
    → v < u64_mod
    → all_spaces tail ≡ true
    → parse_u64 (u64_digits 24 v [] ++ tail) ≡ some v
unfolding parse_u64
parse_u64-u64_digits v tail w s =
    let (c, cs, starts, digit) = u64_digits_first v tail in
    let reads =
      read_digits-u64_digits 24 v tail (omega (arith, w)) w ∙ read_digits-space v tail s in
    rw (u64_digits-append 24 v [] tail) (
      ground (
        arith,
        starts,
        reads,
        is_digit-space c digit,
        skip_spaces_id c cs,
        skip_spaces-all_spaces tail,
      ))

-- A value below the `n`-th power of ten has at most `n` digits.
length-u64_digits :
    (room n v : ℕ) (ds : Bytes) → v < 10 ^ suc n → length (u64_digits room v ds) ≤ suc n + length ds
unfolding u64_digits
length-u64_digits zero n v ds h = omega arith
length-u64_digits (suc room) zero v ds h =
    let one : (v / 10 == 0) ≡ true = ground (arith, h, pow-suc 10 0) in rw one (omega arith)
length-u64_digits (suc room) (suc n) v ds h = elim (Bool-cases (v / 10 == 0)) [
  | inl e ↦ rw e (omega arith)
  | inr e ↦ rw e (
      omega (
        arith,
        length-u64_digits room n (v / 10) ((b'0' + v % 10) ∷ ds)
            (omega (arith, h, pow-suc 10 (suc n))),
      ))
]

-- In a buffer with room for 20 digits, `append_u64` adds to what is there a text of at most 20 digits
-- for any 64-bit number, and `parse_u64` reads the number back from it, with any spaces behind it.
pub parse_u64-append_u64 :
    (size : ℕ) (out : Bytes) (v : ℕ) (tail : Bytes)
    → length out + 20 < size
    → v < u64_mod
    → all_spaces tail ≡ true
    → (text : Bytes) × (append_u64 size out v ≡ some (out ++ text))
      × (length text ≤ 20)
      × (parse_u64 (text ++ tail) ≡ some v)
unfolding append_u64
parse_u64-append_u64 size out v tail room w s =
    let few = length-u64_digits 24 19 v [] (omega (arith, w)) in
    (
      u64_digits 24 v [],
      append_text_fits size out (u64_digits 24 v []) (omega (arith, few, room)),
      omega (arith, few),
      parse_u64-u64_digits v tail w s,
    )
