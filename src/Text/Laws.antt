-- ===== src/Text/Laws.antt =====
-- Laws of the text helpers: comparison decides equality, and a buffer is never overrun.
use packages_repo_main.Prelude.Fallible.{◌>>=◌}
use packages_repo_main.Prelude.{
  ltb, if◌then◌else◌, Option, ℕ, ◌+◌, ◌≤◌, ◌<◌, ◌≡◌, refl, ap, ◌↔◌, ◌≢◌, true, false, ◌||◌, List,
  [], ◌∷◌, ◌++◌, none, some, arith, append-nil, append_assoc, length, length-append, take, zero,
  suc, ◌-◌,
}
use packages_repo_main.Text.{Bytes, streq, contains, append_char, append_text, strlcpy}

pub streq_iff : (a b : Bytes) → (streq a b ≡ true) ↔ (a ≡ b)
unfolding streq
streq_iff [] [] = ground arith
streq_iff [] (y ∷ ys) = ground arith
streq_iff (x ∷ xs) [] = ground arith
streq_iff (x ∷ xs) (y ∷ ys) = ground (arith, streq_iff xs ys)

pub streq_refl : (a : Bytes) → streq a a ≡ true
streq_refl a = (streq_iff a a).1 refl

pub streq_ne : (a b : Bytes) → a ≢ b → streq a b ≡ false
streq_ne a b ne = ground (arith, streq_iff a b)

pub contains-append :
    (xs ys : List Bytes) (n : Bytes) → contains (xs ++ ys) n ≡ (contains xs n || contains ys n)
unfolding contains
contains-append [] ys n = refl
contains-append (x ∷ xs) ys n = ground (arith, contains-append xs ys n)

pub contains_append_left :
    (xs ys : List Bytes) (n : Bytes) → contains xs n ≡ true → contains (xs ++ ys) n ≡ true
contains_append_left xs ys n h = rw (contains-append xs ys n, h)

pub contains_append_self : (xs : List Bytes) (n : Bytes) → contains (xs ++ n ∷ []) n ≡ true
unfolding contains
contains_append_self [] n = ground (arith, streq_refl n)
contains_append_self (x ∷ xs) n = ground (arith, contains_append_self xs n)

pub take-eq_self : (n : ℕ) (xs : Bytes) → length xs ≤ n → take n xs ≡ xs
take-eq_self zero [] h = refl
take-eq_self zero (x ∷ xs) h = elim h [ ]
take-eq_self (suc n) [] h = refl
take-eq_self (suc n) (x ∷ xs) h = ap (◌∷◌ x) (take-eq_self n xs (omega arith))

pub strlcpy_fits : (n : ℕ) (xs : Bytes) → length xs < n → strlcpy n xs ≡ xs
strlcpy_fits n xs h = take-eq_self (n - 1) xs (omega arith)

-- A text that fits is appended whole.
pub append_text_fits :
    (size : ℕ) (out text : Bytes)
    → length out + length text < size
    → append_text size out text ≡ some (out ++ text)
unfolding append_text append_char
append_text_fits size out [] h = rw append-nil
append_text_fits size out (c ∷ cs) h = ground (
  arith,
  append_text_fits size (out ++ c ∷ []) cs,
  length-append out (c ∷ []),
  append_assoc out (c ∷ []) cs,
)

-- What was appended, and the room that it needed.
pub append_text-eq-some :
    (size : ℕ) (out text r : Bytes)
    → append_text size out text ≡ some r
    → length out < size
    → (r ≡ out ++ text) × (length r < size)
unfolding append_text append_char
append_text-eq-some size out [] r e h = ground (arith, append-nil out)
append_text-eq-some size out (c ∷ cs) r e h = ground (
  arith,
  append_text-eq-some size (out ++ c ∷ []) cs r,
  length-append out (c ∷ []),
  append_assoc out (c ∷ []) cs,
)

pub append_text_overflows :
    (size : ℕ) (out text : Bytes)
    → length out < size
    → size ≤ length out + length text
    → append_text size out text ≡ none
unfolding append_text append_char
append_text_overflows size out [] l h = absurd (omega arith)
append_text_overflows size out (c ∷ cs) l h =
    ground (arith, append_text_overflows size (out ++ c ∷ []) cs, length-append out (c ∷ []))

-- An appending routine goes on behind a text that fits.
pub append_text_then {ℓ} :
    {A : Type ℓ} (size : ℕ) (out text : Bytes) (k : Bytes → Option A) (r : Option A)
    → k (out ++ text) ≡ r
    → length out + length text < size
    → (append_text size out text >>= k) ≡ r
append_text_then size out text k r e h = rw (append_text_fits size out text h) e

-- An append of a text, on both of its branches.
pub append_text-if :
    (size : ℕ) (out text : Bytes)
    → length out < size
    → append_text size out text
      ≡ (if ltb (length out + length text) size then some (out ++ text) else none)
append_text-if size out text h =
    ground (arith, append_text_fits size out text, append_text_overflows size out text)

pub append_char_fits :
    (size : ℕ) (out : Bytes) (c : ℕ)
    → length out + 1 < size
    → append_char size out c ≡ some (out ++ c ∷ [])
unfolding append_char
append_char_fits size out c h = ground arith
