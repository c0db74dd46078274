-- ===== src/Solitaire/Refine.antt =====
-- The moves of the program are the legal moves of the game.
use packages_repo_main.Solitaire.Commits.{
  tableau_to_tableau-commit, tableau_to_foundation-commit, waste_to_foundation-commit,
  waste_to_tableau-commit, draw_stock-turn, draw_stock-commit,
}
use packages_repo_main.Solitaire.Guards.{
  tests-IsRun, can_place_on_foundation_iff, can_place_on_tableau_iff, Pile-cases,
}
use packages_repo_main.Solitaire.Rules.{
  IsRun, run_onto_column, column_to_home, waste_to_home, waste_onto_column, turned, turn_over, up,
  draw, counted, Move, IsGame,
}
use packages_repo_main.Solitaire.Moves.{
  is_descending, all_up, refuse, tableau_to_tableau, tableau_to_foundation, waste_to_foundation,
  waste_to_tableau, draw_stock, commit,
}
use packages_repo_main.Solitaire.Cards.{
  run_refused, run_moved, card_at, not_descending, run_face_down, card_home, no_such_run,
  reveal_tail, waste_home, waste_to_column, bad_move, no_foundation, waste_no_foundation,
  top_face_down, can_place_on_foundation, waste_refused, recycled, pile_empty, suit,
  can_place_on_tableau, foundation, tableau_count, nothing_to_draw, drew, waste_empty,
  no_waste_card, top_is_up, column, top_card, is_no_pile, Game, Status, App,
}
use packages_repo_main.Prelude.{
  ◌∙◌, ap, ◌++◌, drop, length-take, take-append-drop, sym, subst, suc, ◌≤◌, ◌-◌, length, set, ltb,
  ◌<◌, ◌==◌, [], ◌||◌, ◌≢◌, leb, arith, ◌∷◌, Bool-cases, refl, take, inl, inr, true, ◌≡◌, Bool, ℕ,
}

-- The calls that make a move.
pub data Action : Type 0 where
  drawing : Action
  waste_column : ℕ → Action
  waste_foundation : Action
  column_foundation : ℕ → Action
  column_column : ℕ → ℕ → ℕ → Action

unfoldable pub act : Action → App → Bool × App
act drawing app = draw_stock app
act (waste_column dest) app = waste_to_tableau app dest
act waste_foundation app = waste_to_foundation app
act (column_foundation src) app = tableau_to_foundation app src
act (column_column src dest count) app = tableau_to_tableau app src dest count

-- What a call may do: refuse with a message, or save the game and make a legal move.
pub data Step (app : App) (r : Bool × App) : Type 0 where
  refused : (text : Status) → r ≡ refuse app text → Step app r
  made : (g : Game) (text : Status) → Move app.game (counted g) → r ≡ commit app g text → Step app r

module _ (app : App) (h : IsGame app.game) where
  draw_stock-Step : Step app (draw_stock app)
  unfolding draw_stock is_no_pile
  draw_stock-Step = elim (Pile-cases app.game.stock) [
    | inr (s, rest, e) ↦
        made (record app.game { stock = rest; waste = up s.card ∷ app.game.waste }) drew
          (draw s rest e refl) (draw_stock-commit app h s rest e)
    | inl e ↦ elim (Pile-cases app.game.waste) [
      | inl w ↦ refused nothing_to_draw (ground (arith, e, w))
      | inr (s, rest, w) ↦
          let full : app.game.waste ≢ [] = λ z. ground (arith, w, z) in
          made (record app.game { stock = turned app.game.waste []; waste = [] }) recycled
            (turn_over e full refl) (draw_stock-turn app h e full)
    ]
  ]

  waste_to_tableau-Step : (dest : ℕ) → Step app (waste_to_tableau app dest)
  unfolding waste_to_tableau is_no_pile top_card
  waste_to_tableau-Step dest = elim (Pile-cases app.game.waste) [
    | inl e ↦ refused no_waste_card (ground (arith, e))
    | inr (s, rest, e) ↦ elim (Bool-cases (leb tableau_count dest)) [
      | inl d ↦ refused no_waste_card (ground (arith, e, d))
      | inr d ↦ elim (Bool-cases (can_place_on_tableau s.card (column app.game dest))) [
        | inr c ↦ refused waste_refused (ground (arith, e, d, c))
        | inl c ↦
            let fits = (can_place_on_tableau_iff s.card (column app.game dest)).0 c in
            let below : dest < tableau_count = ground (arith, d) in
            made
              (record app.game {
                waste = rest;
                tableau = set app.game.tableau dest (up s.card ∷ column app.game dest);
              })
              waste_to_column (waste_onto_column s rest dest e below fits refl)
              (waste_to_tableau-commit app h s rest dest e below fits)
      ]
    ]
  ]

  waste_to_foundation-Step : Step app (waste_to_foundation app)
  unfolding waste_to_foundation is_no_pile top_card
  waste_to_foundation-Step = elim (Pile-cases app.game.waste) [
    | inl e ↦ refused waste_empty (ground (arith, e))
    | inr (s, rest, e) ↦
        let home = foundation app.game (suit s.card) in
        elim (Bool-cases (can_place_on_foundation s.card home)) [
          | inr c ↦ refused waste_no_foundation (ground (arith, e, c))
          | inl c ↦
              let fits = (can_place_on_foundation_iff s.card home).0 c in
              made
                (record app.game {
                  waste = rest;
                  foundations = set app.game.foundations (suit s.card) (up s.card ∷ home);
                })
                waste_home (waste_to_home s rest e fits refl)
                (waste_to_foundation-commit app h s rest e fits)
        ]
  ]

  tableau_to_foundation-Step : (src : ℕ) → Step app (tableau_to_foundation app src)
  unfolding tableau_to_foundation is_no_pile top_card top_is_up
  tableau_to_foundation-Step src = elim (Bool-cases (leb tableau_count src)) [
    | inl l ↦ refused pile_empty (ground (arith, l))
    | inr l ↦ elim (Pile-cases (column app.game src)) [
      | inl e ↦ refused pile_empty (ground (arith, l, e))
      | inr (s, rest, e) ↦ elim (Bool-cases s.face_up) [
        | inr u ↦ refused top_face_down (ground (arith, l, e, u))
        | inl u ↦
            let home = foundation app.game (suit s.card) in
            elim (Bool-cases (can_place_on_foundation s.card home)) [
              | inr c ↦ refused no_foundation (ground (arith, l, e, u, c))
              | inl c ↦
                  let fits = (can_place_on_foundation_iff s.card home).0 c in
                  let below : src < tableau_count = ground (arith, l) in
                  let upper : column app.game src ≡ up s.card ∷ rest = ground (arith, e, u) in
                  made
                    (record app.game {
                      tableau = set app.game.tableau src (reveal_tail rest);
                      foundations = set app.game.foundations (suit s.card) (up s.card ∷ home);
                    })
                    card_home (column_to_home s.card rest src below upper fits refl)
                    (tableau_to_foundation-commit app h s.card rest src below upper fits)
            ]
      ]
    ]
  ]

  -- Where every test of `tableau_to_tableau` is passed.
  run-Step :
      (src dest count : ℕ)
      → src < tableau_count
      → dest < tableau_count
      → src ≢ dest
      → 0 < count
      → count ≤ length (column app.game src)
      → all_up (take count (column app.game src)) ≡ true
      → is_descending (take count (column app.game src)) ≡ true
      → can_place_on_tableau (card_at (column app.game src) (count - 1)) (column app.game dest)
        ≡ true
      → Step app (tableau_to_tableau app src dest count)
  run-Step src dest count l m n z c u d p =
      let from = column app.game src in
      let to = column app.game dest in
      let run = take count from in
      let whole : suc (count - 1) ≡ count = omega (arith, z) in
      let is_run : IsRun (card_at from (count - 1)) run =
        subst (λ (k : ℕ). IsRun (card_at from (count - 1)) (take k from)) whole
          (tests-IsRun from (count - 1) (omega (arith, z, c)) (rw whole u) (rw whole d)) in
      let fits = (can_place_on_tableau_iff (card_at from (count - 1)) to).0 p in
      let split = sym (take-append-drop count from) in
      let size : length run ≡ count = ground (arith, c, length-take count from) in
      made
        (record app.game {
          tableau = set (set app.game.tableau src (reveal_tail (drop count from))) dest (run ++ to);
        })
        run_moved
        (run_onto_column run (drop count from) (card_at from (count - 1)) src dest l m n split
          is_run fits refl)
        (ap (λ k. tableau_to_tableau app src dest k) (sym size)
          ∙ tableau_to_tableau-commit app h run (drop count from) (card_at from (count - 1)) src
              dest l m n split is_run fits)

  tableau_to_tableau-Step : (src dest count : ℕ) → Step app (tableau_to_tableau app src dest count)
  unfolding tableau_to_tableau
  tableau_to_tableau-Step src dest count =
      let from = column app.game src in
      let to = column app.game dest in
      let run = take count from in
      elim (Bool-cases (leb tableau_count src || leb tableau_count dest || src == dest)) [
        | inl b ↦ refused bad_move (ground (arith, b))
        | inr b ↦ elim (Bool-cases (count == 0 || ltb (length from) count)) [
          | inl c ↦ refused no_such_run (ground (arith, b, c))
          | inr c ↦ elim (Bool-cases (all_up run)) [
            | inr u ↦ refused run_face_down (ground (arith, b, c, u))
            | inl u ↦ elim (Bool-cases (is_descending run)) [
              | inr d ↦ refused not_descending (ground (arith, b, c, u, d))
              | inl d ↦ elim (Bool-cases (can_place_on_tableau (card_at from (count - 1)) to)) [
                | inr p ↦ refused run_refused (ground (arith, b, c, u, d, p))
                | inl p ↦
                    run-Step src dest count (ground (arith, b)) (ground (arith, b))
                      (λ e. ground (arith, b, e)) (ground (arith, c)) (ground (arith, c)) u d p
              ]
            ]
          ]
        ]
      ]

-- Every call refuses, which changes the message only, or saves the game and makes a legal move.
pub act-Step : (a : Action) (app : App) → IsGame app.game → Step app (act a app)
unfolding act
act-Step drawing app h = draw_stock-Step app h
act-Step (waste_column dest) app h = waste_to_tableau-Step app h dest
act-Step waste_foundation app h = waste_to_foundation-Step app h
act-Step (column_foundation src) app h = tableau_to_foundation-Step app h src
act-Step (column_column src dest count) app h = tableau_to_tableau-Step app h src dest count

-- What `commit` returns.
abbrev pub Makes : Bool × App → Game → Type 0
Makes r g' = (r.0 ≡ true) × (r.1.game ≡ g')

commit-Makes :
    (app : App) (g g' : Game) (text : Status) (r : Bool × App)
    → g' ≡ counted g
    → r ≡ commit app g text
    → Makes r g'
unfolding commit
commit-Makes app g g' text r e f = rw (f, e) (refl, refl)

-- Every legal move is made by one of the calls.
pub Move-act :
    (app : App) (g' : Game)
    → IsGame app.game
    → Move app.game g'
    → (a : Action) × Makes (act a app) g'
unfolding act
Move-act app g' h (draw s rest e k) =
    (drawing, commit-Makes app _ g' drew (draw_stock app) k (draw_stock-commit app h s rest e))
Move-act app g' h (turn_over e n k) =
    (drawing, commit-Makes app _ g' recycled (draw_stock app) k (draw_stock-turn app h e n))
Move-act app g' h (waste_onto_column s rest dest e d f k) = (
  waste_column dest,
  commit-Makes app _ g' waste_to_column (waste_to_tableau app dest) k
      (waste_to_tableau-commit app h s rest dest e d f),
)
Move-act app g' h (waste_to_home s rest e f k) = (
  waste_foundation,
  commit-Makes app _ g' waste_home (waste_to_foundation app) k
      (waste_to_foundation-commit app h s rest e f),
)
Move-act app g' h (column_to_home c rest src l e f k) = (
  column_foundation src,
  commit-Makes app _ g' card_home (tableau_to_foundation app src) k
      (tableau_to_foundation-commit app h c rest src l e f),
)
Move-act app g' h (run_onto_column run rest deepest src dest l m n e r f k) = (
  column_column src dest (length run),
  commit-Makes app _ g' run_moved (tableau_to_tableau app src dest (length run)) k
      (tableau_to_tableau-commit app h run rest deepest src dest l m n e r f),
)
