-- ===== src/Solitaire/Moves.antt =====
-- solitaire/src/main.cpp: the moves of the game, with `save_undo`. A move returns whether it was made,
-- and the state after it.
use packages_repo_main.Solitaire.Cards.{
  run_moved, run_refused, not_descending, run_face_down, card_home, waste_home, waste_to_column,
  no_such_run, no_foundation, waste_no_foundation, top_face_down, suit, waste_refused, bad_move,
  rank, pile_empty, foundation, no_waste_card, recycled, is_red, waste_empty, tableau_count,
  nothing_to_draw, same, can_place_on_foundation, drew, max_undo, column, top_is_up, is_no_pile,
  u32, reveal_tail, top_card, can_place_on_tableau, pile_pop, Game, Status, card_at, Pile,
  pile_push, set_status, App,
}
use packages_repo_main.Prelude.{
  drop, set, ltb, ◌-◌, take, leb, ◌||◌, ◌+◌, [], not, ◌&&◌, ◌==◌, true, false, length, Bool, ◌∷◌,
  if◌then◌else◌, ℕ,
}

-- The oldest of 32 saved games is given up for a new one.
unfoldable pub save_undo : App → App
save_undo app =
    if length app.undo == max_undo
    then record app { undo = app.game ∷ take (max_undo - 1) app.undo }
    else record app { undo = app.game ∷ app.undo }

-- A move that is refused with a message.
unfoldable pub refuse : App → Status → Bool × App
unfolding set_status
refuse app text = (false, set_status app text)

-- A move that is made: the old game is saved, and the new one has one move more.
unfoldable pub commit : App → Game → Status → Bool × App
unfolding save_undo set_status
commit app game text = (
  true,
  set_status (record (save_undo app) { game = record game { moves = u32 (game.moves + 1) } }) text,
)

-- The loop of `draw_stock` that turns the waste over onto the stock.
unfoldable pub recycle : Pile → Pile → Pile
unfolding pile_push
recycle [] stock = stock
recycle (s ∷ p) stock = recycle p (pile_push stock s.card false)

unfoldable pub draw_stock : App → Bool × App
unfolding refuse commit recycle pile_push pile_pop top_card is_no_pile
draw_stock app =
    let g = app.game in
    if not (is_no_pile g.stock)
    then commit app
        (record g { stock = pile_pop g.stock; waste = pile_push g.waste (top_card g.stock) true })
        drew
    else if is_no_pile g.waste
    then refuse app nothing_to_draw
    else commit app (record g { stock = recycle g.waste g.stock; waste = [] }) recycled

unfoldable pub waste_to_tableau : App → ℕ → Bool × App
unfolding refuse commit pile_push pile_pop top_card is_no_pile can_place_on_tableau
waste_to_tableau app dest =
    let g = app.game in
    if is_no_pile g.waste || leb tableau_count dest
    then refuse app no_waste_card
    else if not (can_place_on_tableau (top_card g.waste) (column g dest))
    then refuse app waste_refused
    else commit app
        (record g {
          waste = pile_pop g.waste;
          tableau = set g.tableau dest (pile_push (column g dest) (top_card g.waste) true);
        })
        waste_to_column

unfoldable pub waste_to_foundation : App → Bool × App
unfolding refuse commit pile_push pile_pop top_card is_no_pile can_place_on_foundation
waste_to_foundation app =
    let g = app.game in
    let card = top_card g.waste in
    if is_no_pile g.waste
    then refuse app waste_empty
    else if not (can_place_on_foundation card (foundation g (suit card)))
    then refuse app waste_no_foundation
    else commit app
        (record g {
          waste = pile_pop g.waste;
          foundations =
              set g.foundations (suit card) (pile_push (foundation g (suit card)) card true);
        })
        waste_home

unfoldable pub tableau_to_foundation : App → ℕ → Bool × App
unfolding refuse commit pile_push pile_pop top_card top_is_up is_no_pile can_place_on_foundation
    reveal_tail
tableau_to_foundation app src =
    let g = app.game in
    let pile = column g src in
    let card = top_card pile in
    if leb tableau_count src || is_no_pile pile
    then refuse app pile_empty
    else if not (top_is_up pile)
    then refuse app top_face_down
    else if not (can_place_on_foundation card (foundation g (suit card)))
    then refuse app no_foundation
    else commit app
        (record g {
          tableau = set g.tableau src (reveal_tail (pile_pop pile));
          foundations =
              set g.foundations (suit card) (pile_push (foundation g (suit card)) card true);
        })
        card_home

-- The loops that look at a run, the top card first: every card is face up, and each is one lower than
-- the next and of the other colour.
unfoldable pub all_up : Pile → Bool
all_up [] = true
all_up (s ∷ p) = s.face_up && all_up p

unfoldable pub is_descending : Pile → Bool
is_descending [] = true
is_descending (s ∷ []) = true
is_descending (s ∷ t ∷ p) =
    not (same (is_red t.card) (is_red s.card))
    && (rank t.card == rank s.card + 1 && is_descending (t ∷ p))

-- The run is pushed from its deepest card on.
unfoldable pub push_run : Pile → Pile → Pile
unfolding pile_push
push_run to [] = to
push_run to (s ∷ p) = pile_push (push_run to p) s.card true

unfoldable pub tableau_to_tableau : App → ℕ → ℕ → ℕ → Bool × App
unfolding refuse commit all_up is_descending card_at can_place_on_tableau push_run reveal_tail
tableau_to_tableau app src dest count =
    let g = app.game in
    let from = column g src in
    let to = column g dest in
    if leb tableau_count src || leb tableau_count dest || src == dest
    then refuse app bad_move
    else if count == 0 || ltb (length from) count
    then refuse app no_such_run
    else if not (all_up (take count from))
    then refuse app run_face_down
    else if not (is_descending (take count from))
    then refuse app not_descending
    else if not (can_place_on_tableau (card_at from (count - 1)) to)
    then refuse app run_refused
    else commit app
        (record g {
          tableau =
              set (set g.tableau src (reveal_tail (drop count from))) dest
                (push_run to (take count from));
        })
        run_moved
