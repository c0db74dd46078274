-- ===== src/Solitaire/Deal/Shuffle.antt =====
-- The shuffle loses no card: whatever the cards weigh, the deck weighs the same.
use native.Mathlib.Nat.{mod-lt}
use packages_repo_main.Solitaire.Rules.{weigh_below}
use packages_repo_main.Solitaire.Deal.{next_random, deck_from, shuffle_from, swap}
use packages_repo_main.Prelude.{
  refl, zero, ◌%◌, [], ap, ◌∙◌, arith, ◌+◌, suc, length-set, set, ◌≡◌, get_or, ◌<◌, ◌∷◌, length,
  List, ℕ,
}

abbrev pub weigh_cards : (ℕ → ℕ) → List ℕ → ℕ
weigh_cards w [] = 0
weigh_cards w (c ∷ cs) = w c + weigh_cards w cs

weigh_cards-set :
    (w : ℕ → ℕ) (deck : List ℕ) (i v : ℕ)
    → i < length deck
    → weigh_cards w (set deck i v) + w (get_or deck i 0) ≡ weigh_cards w deck + w v
weigh_cards-set w [] i v h = elim h [ ]
weigh_cards-set w (c ∷ cs) zero v h = omega arith
weigh_cards-set w (c ∷ cs) (suc i) v h = omega (arith, weigh_cards-set w cs i v (omega arith))

-- What stands at a place after it, or another, was given the value that stood there.
get_or-set_same :
    (deck : List ℕ) (i j : ℕ) → get_or (set deck i (get_or deck j 0)) j 0 ≡ get_or deck j 0
get_or-set_same deck i j = go deck i j (get_or deck j 0) refl
  where
    go : (d : List ℕ) (i j v : ℕ) → get_or d j 0 ≡ v → get_or (set d i v) j 0 ≡ v
    go [] i j v e = e
    go (c ∷ cs) zero zero v e = refl
    go (c ∷ cs) zero (suc j) v e = e
    go (c ∷ cs) (suc i) zero v e = e
    go (c ∷ cs) (suc i) (suc j) v e = go cs i j v e

length-swap : (deck : List ℕ) (i j : ℕ) → length (swap deck i j) ≡ length deck
unfolding swap
length-swap deck i j =
    length-set (set deck i (get_or deck j 0)) j (get_or deck i 0)
    ∙ length-set deck i (get_or deck j 0)

weigh_cards-swap :
    (w : ℕ → ℕ) (deck : List ℕ) (i j : ℕ)
    → i < length deck
    → j < length deck
    → weigh_cards w (swap deck i j) ≡ weigh_cards w deck
unfolding swap
weigh_cards-swap w deck i j h k =
    let first = set deck i (get_or deck j 0) in
    let size : length first ≡ length deck = length-set deck i (get_or deck j 0) in
    omega (
      arith,
      weigh_cards-set w deck i (get_or deck j 0) h,
      weigh_cards-set w first j (get_or deck i 0) (omega (arith, size, k)),
      ap w (get_or-set_same deck i j),
    )

pub shuffle_from-keeps :
    (i state : ℕ) (deck : List ℕ)
    → i < length deck
    → (length (shuffle_from i state deck).0 ≡ length deck)
      × ((w : ℕ → ℕ) → weigh_cards w (shuffle_from i state deck).0 ≡ weigh_cards w deck)
unfolding shuffle_from
shuffle_from-keeps zero state deck h = (refl, λ w. refl)
shuffle_from-keeps (suc i) state deck h =
    let j = next_random state % (suc i + 1) in
    let positive : 0 < suc i + 1 = omega arith in
    let below : j < suc i + 1 = mod-lt (next_random state) positive in
    let size = length-swap deck (suc i) j in
    let (kept, weighs) =
      shuffle_from-keeps i (next_random state) (swap deck (suc i) j) (omega (arith, size, h)) in
    (kept ∙ size, λ w. weighs w ∙ weigh_cards-swap w deck (suc i) j h (omega (arith, below, h)))

weigh_cards-deck_from :
    (w : ℕ → ℕ) (first count all : ℕ)
    → all ≡ first + count
    → weigh_cards w (deck_from first count) + weigh_below w first ≡ weigh_below w all
unfolding deck_from
weigh_cards-deck_from w first zero all e =
    let same : all ≡ first = omega (arith, e) in rw same (omega arith)
weigh_cards-deck_from w first (suc count) all e =
    omega (arith, weigh_cards-deck_from w (suc first) count all (omega (arith, e)))

length-deck_from : (first count : ℕ) → length (deck_from first count) ≡ count
unfolding deck_from
length-deck_from first zero = refl
length-deck_from first (suc count) = ap suc (length-deck_from (suc first) count)

-- The shuffled deck: 52 cards, each of them once.
pub shuffled_deck :
    (state : ℕ)
    → (length (shuffle_from 51 state (deck_from 0 52)).0 ≡ 52)
      × ((w : ℕ → ℕ) → weigh_cards w (shuffle_from 51 state (deck_from 0 52)).0 ≡ weigh_below w 52)
shuffled_deck state =
    let size = length-deck_from 0 52 in
    let (kept, weighs) = shuffle_from-keeps 51 state (deck_from 0 52) (omega (arith, size)) in
    (kept ∙ size, λ w. weighs w ∙ omega (arith, weigh_cards-deck_from w 0 52 52 refl))
