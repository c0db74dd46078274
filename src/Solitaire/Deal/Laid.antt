-- ===== src/Solitaire/Deal/Laid.antt =====
-- What `deal` lays out is a legal game.
use packages_repo_main.Solitaire.Guards.{pile_push_fits}
use packages_repo_main.Solitaire.Deal.Shuffle.{shuffled_deck, weigh_cards}
use packages_repo_main.Solitaire.Deal.{
  lay_out, deck_from, shuffle_from, default_seed, no_piles, deal, deal_stock, deal_columns,
  deal_rows,
}
use packages_repo_main.Solitaire.Rules.{
  weigh_below, up, weigh_all, weigh, IsColumn, IsGame, IsBuilt, IsStacked, AllFacing,
}
use packages_repo_main.Solitaire.Cards.{
  column, tableau_count, foundation_count, max_pile, Slot, Pile,
}
use packages_repo_main.Prelude.{
  refl, true, ◌==◌, ap, if◌then◌else◌, ◌≡◌, zero, length, ◌≤◌, ◌<◌, ◌+◌, get_or, List, suc, [],
  arith, ◌∷◌, false, ℕ,
}

AllFacing-IsStacked : (s : Slot) (p : Pile) → AllFacing false p → IsStacked (s ∷ p)
AllFacing-IsStacked s [] a = tt
AllFacing-IsStacked s (t ∷ p) a =
    (λ u. absurd (ground (arith, u, a.0)), AllFacing-IsStacked t p a.1)

-- A column is dealt from the deck, face down but for its top.
deal_rows-lem :
    (more : ℕ) (pile : Pile) (deck : List ℕ)
    → more < length deck
    → length pile + more < max_pile
    → AllFacing false pile
    → let (dealt, rest) = deal_rows more pile deck in
      IsColumn dealt
      × (length dealt ≡ length pile + suc more)
      × (length rest + suc more ≡ length deck)
      × ((w : ℕ → ℕ) → weigh w dealt + weigh_cards w rest ≡ weigh w pile + weigh_cards w deck)
unfolding deal_rows
deal_rows-lem more pile [] h k a = elim h [ ]
deal_rows-lem zero pile (c ∷ cs) h k a = rw (pile_push_fits pile c true (omega (arith, k))) (
  record { top = refl; ordered = AllFacing-IsStacked (up c) pile a },
  omega arith,
  omega arith,
  λ w. omega arith,
)
deal_rows-lem (suc more) pile (c ∷ cs) h k a =
    let grown = record { card = c; face_up = false } ∷ pile in
    let (good, size, left, weighs) =
      deal_rows-lem more grown cs (omega (arith, h)) (omega (arith, k)) (refl, a) in
    rw (pile_push_fits pile c false (omega (arith, k)), deal_rows)
      (good, omega (arith, size), omega (arith, left), λ w. omega (arith, weighs w))

-- How many cards `count` columns take from the deck, the first of them `col + 1`.
abbrev needed : ℕ → ℕ → ℕ
needed col zero = 0
needed col (suc count) = suc col + needed (suc col) count

deal_columns-lem :
    (col count : ℕ) (deck : List ℕ)
    → needed col count ≤ length deck
    → col + count ≤ max_pile
    → let (piles, rest) = deal_columns col count deck in
      ((i : ℕ) → IsColumn (get_or piles i []))
      × ((i : ℕ) → i < count → length (get_or piles i []) ≡ col + i + 1)
      × (length piles ≡ count)
      × (length rest + needed col count ≡ length deck)
      × ((w : ℕ → ℕ) → weigh_all w piles + weigh_cards w rest ≡ weigh_cards w deck)
unfolding deal_columns
deal_columns-lem col zero deck h k =
    (λ i. record { top = tt; ordered = tt }, λ i l. elim l [ ], refl, omega arith, λ w. omega arith)
deal_columns-lem col (suc count) deck h k =
    let (good, size, left, weighs) =
      deal_rows-lem col [] deck (omega (arith, h)) (omega (arith, k)) tt in
    let (goods, sizes, many, lefts, all) =
      deal_columns-lem (suc col) count (deal_rows col [] deck).1 (omega (arith, left, h))
        (omega (arith, k)) in
    (
      λ i.
          each (deal_rows col [] deck).0 (deal_columns (suc col) count (deal_rows col [] deck).1).0
            good goods i,
      λ i l.
          each_size (deal_rows col [] deck).0
            (deal_columns (suc col) count (deal_rows col [] deck).1).0 col count size sizes i l,
      ap suc many,
      omega (arith, left, lefts),
      λ w. omega (arith, weighs w, all w),
    )
  where
    each :
        (p : Pile) (ps : List Pile)
        → IsColumn p
        → ((i : ℕ) → IsColumn (get_or ps i []))
        → (i : ℕ) → IsColumn (get_or (p ∷ ps) i [])
    each p ps good goods zero = good
    each p ps good goods (suc i) = goods i

    each_size :
        (p : Pile) (ps : List Pile) (col count : ℕ)
        → length p ≡ 0 + suc col
        → ((i : ℕ) → i < count → length (get_or ps i []) ≡ suc col + i + 1)
        → (i : ℕ) → i < suc count
        → length (get_or (p ∷ ps) i []) ≡ col + i + 1
    each_size p ps col count size sizes zero l = omega (arith, size)
    each_size p ps col count size sizes (suc i) l = omega (arith, sizes i (omega (arith, l)))

deal_stock-lem :
    (pile : Pile) (deck : List ℕ)
    → length pile + length deck ≤ max_pile
    → AllFacing false pile
    → AllFacing false (deal_stock pile deck)
      × (length (deal_stock pile deck) ≡ length pile + length deck)
      × ((w : ℕ → ℕ) → weigh w (deal_stock pile deck) ≡ weigh w pile + weigh_cards w deck)
unfolding deal_stock
deal_stock-lem pile [] k a = (a, omega arith, λ w. omega arith)
deal_stock-lem pile (c ∷ cs) k a =
    let grown = record { card = c; face_up = false } ∷ pile in
    let (down, size, weighs) = deal_stock-lem grown cs (omega (arith, k)) (refl, a) in
    rw (pile_push_fits pile c false (omega (arith, k)), deal_stock)
      (down, omega (arith, size), λ w. omega (arith, weighs w))

no_piles-IsBuilt : (i : ℕ) → IsBuilt i (get_or (no_piles foundation_count) i [])
no_piles-IsBuilt zero = tt
no_piles-IsBuilt (suc zero) = tt
no_piles-IsBuilt (suc (suc zero)) = tt
no_piles-IsBuilt (suc (suc (suc zero))) = tt
no_piles-IsBuilt (suc (suc (suc (suc i)))) = tt

-- What is laid out of a deck that has every card once.
lay_out-IsGame :
    (deck : List ℕ) (state : ℕ)
    → length deck ≡ 52
    → ((w : ℕ → ℕ) → weigh_cards w deck ≡ weigh_below w 52)
    → IsGame (lay_out deck state)
      × ((i : ℕ) → i < tableau_count → length (column (lay_out deck state) i) ≡ i + 1)
      × (length (lay_out deck state).stock ≡ 24)
unfolding lay_out
lay_out-IsGame deck state size weighs =
    let (goods, sizes, many, left, all) =
      deal_columns-lem 0 tableau_count deck (omega (arith, size)) (omega arith) in
    let (down, high, stock) =
      deal_stock-lem [] (deal_columns 0 tableau_count deck).1 (omega (arith, size, left)) tt in
    (
      record {
        complete = λ w. omega (arith, weighs w, all w, stock w);
        four = refl;
        seven = many;
        built = no_piles-IsBuilt;
        columns = goods;
        stock_down = down;
        waste_up = tt;
      },
      λ i l. omega (arith, sizes i l),
      omega (arith, high, left, size),
    )

-- Whatever the seed, a legal game is dealt: every card is there once, the columns have one to seven
-- cards with the top face up, and the 24 others are the stock.
pub deal-IsGame :
    (seed : ℕ)
    → IsGame (deal seed)
      × ((i : ℕ) → i < tableau_count → length (column (deal seed) i) ≡ i + 1)
      × (length (deal seed).stock ≡ 24)
unfolding deal
deal-IsGame seed =
    let start = if seed == 0 then default_seed else seed in
    let (deck, state) = shuffle_from 51 start (deck_from 0 52) in
    let (size, weighs) = shuffled_deck start in lay_out-IsGame deck state size weighs
