-- ===== src/Solitaire/Weight.antt =====
-- How the weight of the piles changes, and what it says of their sizes.
use packages_repo_main.Solitaire.Rules.{total, IsGame, weigh_below, weigh_all, turned, weigh}
use packages_repo_main.Solitaire.Cards.{Slot, Game, reveal_tail, Pile}
use packages_repo_main.Prelude.{
  inr, ltb→lt, inl, Bool-cases, zero, false, suc, refl, ap, arith, ◌≤◌, ◌∷◌, ◌+◌, ◌≡◌, ◌++◌, set,
  length, [], ltb, ◌≢◌, ◌<◌, get_or, if◌then◌else◌, List, ℕ,
}

pub each-set :
    (P : ℕ → Pile → Type 0) (ps : List Pile) (i : ℕ) (v : Pile)
    → ((j : ℕ) → P j (get_or ps j []))
    → P i v
    → (j : ℕ) → P j (get_or (set ps i v) j [])
each-set P [] i v a p j = a j
each-set P (x ∷ xs) zero v a p zero = p
each-set P (x ∷ xs) zero v a p (suc j) = a (suc j)
each-set P (x ∷ xs) (suc i) v a p zero = a zero
each-set P (x ∷ xs) (suc i) v a p (suc j) = each-set (λ k. P (suc k)) xs i v (λ k. a (suc k)) p j

-- The weight after a pile is replaced.
pub weigh_all-set :
    (w : ℕ → ℕ) (ps : List Pile) (i : ℕ) (v : Pile)
    → i < length ps
    → weigh_all w (set ps i v) + weigh w (get_or ps i []) ≡ weigh_all w ps + weigh w v
weigh_all-set w [] i v h = elim h [ ]
weigh_all-set w (x ∷ xs) zero v h = omega arith
weigh_all-set w (x ∷ xs) (suc i) v h = omega (arith, weigh_all-set w xs i v (omega arith))

pub get_or-set_ne :
    (ps : List Pile) (i j : ℕ) (v : Pile) → i ≢ j → get_or (set ps i v) j [] ≡ get_or ps j []
get_or-set_ne [] i j v h = refl
get_or-set_ne (x ∷ xs) zero zero v h = absurd (h refl)
get_or-set_ne (x ∷ xs) zero (suc j) v h = refl
get_or-set_ne (x ∷ xs) (suc i) zero v h = refl
get_or-set_ne (x ∷ xs) (suc i) (suc j) v h = get_or-set_ne xs i j v (λ e. h (ap suc e))

pub weigh-append : (w : ℕ → ℕ) (p q : Pile) → weigh w (p ++ q) ≡ weigh w p + weigh w q
weigh-append w [] q = omega arith
weigh-append w (s ∷ p) q = omega (arith, weigh-append w p q)

pub weigh-turned : (w : ℕ → ℕ) (p q : Pile) → weigh w (turned p q) ≡ weigh w p + weigh w q
weigh-turned w [] q = omega arith
weigh-turned w (s ∷ p) q =
    omega (arith, weigh-turned w p (record { card = s.card; face_up = false } ∷ q))

pub weigh-reveal_tail : (w : ℕ → ℕ) (p : Pile) → weigh w (reveal_tail p) ≡ weigh w p
unfolding reveal_tail
weigh-reveal_tail w [] = refl
weigh-reveal_tail w (s ∷ p) = refl

-- The weight that counts the cards.
abbrev pub single : ℕ → ℕ
single c = 1

pub weigh-single : (p : Pile) → weigh single p ≡ length p
weigh-single [] = refl
weigh-single (s ∷ p) = omega (arith, weigh-single p)

pub weigh_le : (w : ℕ → ℕ) (ps : List Pile) (i : ℕ) → weigh w (get_or ps i []) ≤ weigh_all w ps
weigh_le w [] i = omega arith
weigh_le w (p ∷ ps) zero = omega arith
weigh_le w (p ∷ ps) (suc i) = omega (arith, weigh_le w ps i)

-- The weight of the numbers that are no cards.
abbrev pub foreign : ℕ → ℕ
foreign c = if ltb c 52 then 0 else 1

foreign_none : weigh_below foreign 52 ≡ 0
foreign_none = refl

-- Every pile of a legal game holds cards only.
pub pile_weighs_no_foreign :
    (g : Game) (p : Pile) → IsGame g → ((w : ℕ → ℕ) → weigh w p ≤ total w g) → weigh foreign p ≡ 0
pile_weighs_no_foreign g p h le = omega (arith, h.complete foreign, foreign_none, le foreign)

pub card_lt : (s : Slot) (p : Pile) → weigh foreign (s ∷ p) ≡ 0 → s.card < 52
card_lt s p h = elim (Bool-cases (ltb s.card 52)) [
  | inl b ↦ ltb→lt s.card 52 b
  | inr b ↦ absurd (ground (arith, b, h))
]
