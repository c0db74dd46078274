-- ===== src/Solitaire/Deal.antt =====
-- solitaire/src/main.cpp: `deal`, the shuffled deck laid out.
pub mod Shuffle
pub mod Laid
use packages_repo_main.Solitaire.Cards.{foundation_count, tableau_count, Pile, Game, pile_push, u32}
use packages_repo_main.Prelude.{
  zero, false, true, ◌==◌, replicate, ◌%◌, get_or, ◌∷◌, ◌+◌, if◌then◌else◌, suc, set, [], ◌*◌, List,
  ℕ,
}

unfoldable pub next_random : ℕ → ℕ
next_random state = u32 (state * 1664525 + 1013904223)

-- `count` cards from `first` on.
unfoldable pub deck_from : ℕ → ℕ → List ℕ
deck_from first zero = []
deck_from first (suc count) = first ∷ deck_from (suc first) count

unfoldable pub swap : List ℕ → ℕ → ℕ → List ℕ
swap deck i j = set (set deck i (get_or deck j 0)) j (get_or deck i 0)

-- The loop `for (size_t i = 51; i > 0; --i)`, from `i` on: the deck and the state of the generator.
unfoldable pub shuffle_from : ℕ → ℕ → List ℕ → List ℕ × ℕ
unfolding swap
shuffle_from zero state deck = (deck, state)
shuffle_from (suc i) state deck =
    shuffle_from i (next_random state) (swap deck (suc i) (next_random state % (suc i + 1)))

-- The rows of a column, `more` of them before the last, which is face up: the pile and the deck.
unfoldable pub deal_rows : ℕ → Pile → List ℕ → Pile × List ℕ
unfolding pile_push
deal_rows more pile [] = (pile, [])
deal_rows zero pile (c ∷ cs) = (pile_push pile c true, cs)
deal_rows (suc more) pile (c ∷ cs) = deal_rows more (pile_push pile c false) cs

-- The columns from `col` on, `count` of them.
unfoldable pub deal_columns : ℕ → ℕ → List ℕ → List Pile × List ℕ
unfolding deal_rows
deal_columns col zero deck = ([], deck)
deal_columns col (suc count) deck =
    let (pile, rest) = deal_rows col [] deck in
    let (piles, left) = deal_columns (suc col) count rest in (pile ∷ piles, left)

unfoldable pub deal_stock : Pile → List ℕ → Pile
unfolding pile_push
deal_stock pile [] = pile
deal_stock pile (c ∷ cs) = deal_stock (pile_push pile c false) cs

abbrev pub default_seed : ℕ
default_seed = 1369959006

abbrev pub no_piles : ℕ → List Pile
no_piles count = replicate count []

-- The shuffled deck laid out; `state` is what the generator has come to.
unfoldable pub lay_out : List ℕ → ℕ → Game
lay_out deck state =
    let (tableau, rest) = deal_columns 0 tableau_count deck in
    record {
      stock = deal_stock [] rest;
      waste = [];
      foundations = no_piles foundation_count;
      tableau = tableau;
      moves = 0;
      seed = state;
    }

unfoldable pub deal : ℕ → Game
deal seed =
    let (deck, state) =
      shuffle_from 51 (if seed == 0 then default_seed else seed) (deck_from 0 52) in
    lay_out deck state
