-- ===== src/Solitaire/Rules.antt =====
-- The rules of the game, stated on piles as such: what a legal move is, and what a legal game looks
-- like.
use packages_repo_main.Solitaire.Cards.{
  reveal_tail, foundation, column, tableau_count, foundation_count, suit, u32, rank, Game, Slot,
  Pile, is_red,
}
use packages_repo_main.Prelude.{
  ◌++◌, set, ◌<◌, zero, length, ◌*◌, false, [], ◌+◌, true, ◌∷◌, ◌≡◌, ◌≢◌, suc, List, Bool, ℕ,
}

-- The lower card goes onto the upper one: the other colour, and one rank below.
pub record Descends (lower upper : ℕ) : Type 0 where
  pub colour : is_red lower ≢ is_red upper
  pub next : rank lower + 1 ≡ rank upper

-- A column takes a card on its face-up top, and a king where it is empty.
abbrev pub FitsColumn : ℕ → Pile → Type 0
FitsColumn c [] = rank c ≡ 13
FitsColumn c (s ∷ p) = (s.face_up ≡ true) × Descends c s.card

-- A foundation takes an ace, and then the next card of its suit.
abbrev pub FitsFoundation : ℕ → Pile → Type 0
FitsFoundation c [] = rank c ≡ 1
FitsFoundation c (s ∷ p) = (suit c ≡ suit s.card) × (rank c ≡ rank s.card + 1)

-- Face-up cards, each of which goes onto the next; `deepest` is the last.
pub data IsRun (deepest : ℕ) : Pile → Type 0 where
  one : {run : Pile} → run ≡ record { card = deepest; face_up = true } ∷ [] → IsRun deepest run
  onto :
      {run : Pile} (c d : ℕ) (p : Pile)
      → run ≡ record { card = c; face_up = true } ∷ record { card = d; face_up = true } ∷ p
      → Descends c d
      → IsRun deepest (record { card = d; face_up = true } ∷ p)
      → IsRun deepest run

abbrev pub turned : Pile → Pile → Pile
turned [] stock = stock
turned (s ∷ p) stock = turned p (record { card = s.card; face_up = false } ∷ stock)

abbrev pub up : ℕ → Slot
up c = record { card = c; face_up = true }

abbrev pub counted : Game → Game
counted g = record g { moves = u32 (g.moves + 1) }

-- A legal move from one game to another.
pub data Move (g : Game) : Game → Type 0 where
  draw :
      {g' : Game} (s : Slot) (rest : Pile)
      → g.stock ≡ s ∷ rest
      → g' ≡ counted (record g { stock = rest; waste = up s.card ∷ g.waste })
      → Move g g'
  turn_over :
      {g' : Game}
      → g.stock ≡ []
      → g.waste ≢ []
      → g' ≡ counted (record g { stock = turned g.waste []; waste = [] })
      → Move g g'
  waste_onto_column :
      {g' : Game} (s : Slot) (rest : Pile) (dest : ℕ)
      → g.waste ≡ s ∷ rest
      → dest < tableau_count
      → FitsColumn s.card (column g dest)
      → g'
        ≡ counted
            (record g { waste = rest; tableau = set g.tableau dest (up s.card ∷ column g dest) })
      → Move g g'
  waste_to_home :
      {g' : Game} (s : Slot) (rest : Pile)
      → g.waste ≡ s ∷ rest
      → FitsFoundation s.card (foundation g (suit s.card))
      → g'
        ≡ counted (record g {
          waste = rest;
          foundations = set g.foundations (suit s.card) (up s.card ∷ foundation g (suit s.card));
        })
      → Move g g'
  column_to_home :
      {g' : Game} (c : ℕ) (rest : Pile) (src : ℕ)
      → src < tableau_count
      → column g src ≡ up c ∷ rest
      → FitsFoundation c (foundation g (suit c))
      → g'
        ≡ counted (record g {
          tableau = set g.tableau src (reveal_tail rest);
          foundations = set g.foundations (suit c) (up c ∷ foundation g (suit c));
        })
      → Move g g'
  run_onto_column :
      {g' : Game} (run rest : Pile) (deepest src dest : ℕ)
      → src < tableau_count
      → dest < tableau_count
      → src ≢ dest
      → column g src ≡ run ++ rest
      → IsRun deepest run
      → FitsColumn deepest (column g dest)
      → g'
        ≡ counted (record g {
          tableau = set (set g.tableau src (reveal_tail rest)) dest (run ++ column g dest);
        })
      → Move g g'

-- A foundation holds the cards of its suit from the ace on.
abbrev pub IsBuilt : ℕ → Pile → Type 0
IsBuilt i [] = Unit {0}
IsBuilt i (s ∷ p) = (s.card ≡ 13 * i + length p) × (length p < 13) × IsBuilt i p

-- In a column a card above a face-up one is face up and goes onto it.
abbrev pub IsStacked : Pile → Type 0
IsStacked [] = Unit {0}
IsStacked (s ∷ []) = Unit {0}
IsStacked (s ∷ t ∷ p) =
    (t.face_up ≡ true → (s.face_up ≡ true) × Descends s.card t.card) × IsStacked (t ∷ p)

-- The top of a column is face up.
abbrev pub TopIsUp : Pile → Type 0
TopIsUp [] = Unit {0}
TopIsUp (s ∷ p) = s.face_up ≡ true

pub record IsColumn (p : Pile) : Type 0 where
  pub top : TopIsUp p
  pub ordered : IsStacked p

abbrev pub AllFacing : Bool → Pile → Type 0
AllFacing side [] = Unit {0}
AllFacing side (s ∷ p) = (s.face_up ≡ side) × AllFacing side p

-- The weight of the cards, for a weight of each.
abbrev pub weigh : (ℕ → ℕ) → Pile → ℕ
weigh w [] = 0
weigh w (s ∷ p) = w s.card + weigh w p

abbrev pub weigh_all : (ℕ → ℕ) → List Pile → ℕ
weigh_all w [] = 0
weigh_all w (p ∷ ps) = weigh w p + weigh_all w ps

abbrev pub total : (ℕ → ℕ) → Game → ℕ
total w g = weigh w g.stock + weigh w g.waste + (weigh_all w g.foundations + weigh_all w g.tableau)

-- The weight of the cards below `n`.
abbrev pub weigh_below : (ℕ → ℕ) → ℕ → ℕ
weigh_below w zero = 0
weigh_below w (suc n) = w n + weigh_below w n

-- A legal game. Whatever the cards weigh, the piles weigh as much as the deck, so that every card is
-- there once.
pub record IsGame (g : Game) : Type 0 where
  pub complete : (w : ℕ → ℕ) → total w g ≡ weigh_below w 52
  pub four : length g.foundations ≡ foundation_count
  pub seven : length g.tableau ≡ tableau_count
  pub built : (i : ℕ) → IsBuilt i (foundation g i)
  pub columns : (i : ℕ) → IsColumn (column g i)
  pub stock_down : AllFacing false g.stock
  pub waste_up : AllFacing true g.waste
