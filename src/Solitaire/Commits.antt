-- ===== src/Solitaire/Commits.antt =====
-- Where a move is legal, the code makes it: what `commit` is called with.
use packages_repo_main.Solitaire.Guards.{
  push_run-append, recycle-turned, can_place_on_foundation_iff, can_place_on_tableau_iff,
  pile_push_fits, Pile-cases, IsRun-tests,
}
use packages_repo_main.Solitaire.Moves.{
  commit, tableau_to_tableau, tableau_to_foundation, waste_to_foundation, waste_to_tableau,
  draw_stock,
}
use packages_repo_main.Solitaire.Weight.{
  get_or-set_ne, weigh_all-set, weigh-append, weigh_le, weigh-single, single,
}
use packages_repo_main.Solitaire.Cards.{
  run_moved, card_home, reveal_tail, waste_home, max_pile, suit, waste_to_column, foundation,
  recycled, drew, column, tableau_count, top_is_up, Slot, top_card, Pile, is_no_pile, pile_pop, App,
}
use packages_repo_main.Solitaire.Rules.{
  weigh, IsRun, FitsFoundation, FitsColumn, turned, up, IsGame, weigh_below,
}
use packages_repo_main.Prelude.{
  drop-append_all, take-append_all, length-append, true, inr, inl, ap, ◌≤◌, arith, ◌+◌, length, set,
  ◌++◌, ◌∷◌, ◌≢◌, ◌<◌, [], refl, ◌≡◌, ℕ,
}

singles : weigh_below single 52 ≡ 52
singles = refl

module _ (app : App) (h : IsGame app.game) where
  pub draw_stock-commit :
      (s : Slot) (rest : Pile)
      → app.game.stock ≡ s ∷ rest
      → draw_stock app
        ≡ commit app (record app.game { stock = rest; waste = up s.card ∷ app.game.waste }) drew
  unfolding draw_stock pile_pop top_card is_no_pile
  draw_stock-commit s rest e =
      let g = app.game in
      let room : length g.waste < max_pile =
        omega (arith, h.complete single, singles, weigh-single g.waste, ap (weigh single) e) in
      ground (arith, e, pile_push_fits g.waste s.card true room)

  pub draw_stock-turn :
      app.game.stock ≡ []
      → app.game.waste ≢ []
      → draw_stock app
        ≡ commit app (record app.game { stock = turned app.game.waste []; waste = [] }) recycled
  unfolding draw_stock is_no_pile
  draw_stock-turn e n =
      let g = app.game in
      let room : length g.waste + 0 ≤ max_pile =
        omega (arith, h.complete single, singles, weigh-single g.waste) in
      elim (Pile-cases g.waste) [
        | inl w ↦ absurd (n w)
        | inr (s, rest, w) ↦ ground (arith, e, w, recycle-turned g.waste [] room)
      ]

  pub waste_to_tableau-commit :
      (s : Slot) (rest : Pile) (dest : ℕ)
      → app.game.waste ≡ s ∷ rest
      → dest < tableau_count
      → FitsColumn s.card (column app.game dest)
      → waste_to_tableau app dest
        ≡ commit app
            (record app.game {
              waste = rest;
              tableau = set app.game.tableau dest (up s.card ∷ column app.game dest);
            })
            waste_to_column
  unfolding waste_to_tableau pile_pop top_card is_no_pile
  waste_to_tableau-commit s rest dest e d f =
      let g = app.game in
      let room : length (column g dest) < max_pile = omega (
        arith,
        h.complete single,
        singles,
        weigh-single (column g dest),
        weigh_le single g.tableau dest,
        ap (weigh single) e,
      ) in
      ground (
        arith,
        e,
        (can_place_on_tableau_iff s.card (column g dest)).1 f,
        pile_push_fits (column g dest) s.card true room,
      )

  pub waste_to_foundation-commit :
      (s : Slot) (rest : Pile)
      → app.game.waste ≡ s ∷ rest
      → FitsFoundation s.card (foundation app.game (suit s.card))
      → waste_to_foundation app
        ≡ commit app
            (record app.game {
              waste = rest;
              foundations =
                  set app.game.foundations
                    (suit s.card)
                    (up s.card ∷ foundation app.game (suit s.card));
            })
            waste_home
  unfolding waste_to_foundation pile_pop top_card is_no_pile
  waste_to_foundation-commit s rest e f =
      let g = app.game in
      let home = foundation g (suit s.card) in
      let room : length home < max_pile = omega (
        arith,
        h.complete single,
        singles,
        weigh-single home,
        weigh_le single g.foundations (suit s.card),
        ap (weigh single) e,
      ) in
      ground (
        arith,
        e,
        (can_place_on_foundation_iff s.card home).1 f,
        pile_push_fits home s.card true room,
      )

  pub tableau_to_foundation-commit :
      (c : ℕ) (rest : Pile) (src : ℕ)
      → src < tableau_count
      → column app.game src ≡ up c ∷ rest
      → FitsFoundation c (foundation app.game (suit c))
      → tableau_to_foundation app src
        ≡ commit app
            (record app.game {
              tableau = set app.game.tableau src (reveal_tail rest);
              foundations = set app.game.foundations (suit c) (up c ∷ foundation app.game (suit c));
            })
            card_home
  unfolding tableau_to_foundation pile_pop top_card top_is_up is_no_pile
  tableau_to_foundation-commit c rest src l e f =
      let g = app.game in
      let home = foundation g (suit c) in
      let room : length home < max_pile = omega (
        arith,
        h.complete single,
        singles,
        weigh-single home,
        weigh_le single g.foundations (suit c),
        weigh_le single g.tableau src,
        ap (weigh single) e,
      ) in
      ground (arith, e, (can_place_on_foundation_iff c home).1 f, pile_push_fits home c true room)

  pub tableau_to_tableau-commit :
      (run rest : Pile) (deepest src dest : ℕ)
      → src < tableau_count
      → dest < tableau_count
      → src ≢ dest
      → column app.game src ≡ run ++ rest
      → IsRun deepest run
      → FitsColumn deepest (column app.game dest)
      → tableau_to_tableau app src dest (length run)
        ≡ commit app
            (record app.game {
              tableau =
                  set
                    (set app.game.tableau src (reveal_tail rest))
                    dest
                    (run ++ column app.game dest);
            })
            run_moved
  unfolding tableau_to_tableau
  tableau_to_tableau-commit run rest deepest src dest l m n e r f =
      let g = app.game in
      let (ups, falls, (j, size, last)) = IsRun-tests deepest run rest r in
      let room : length run + length (column g dest) ≤ max_pile = omega (
        arith,
        h.complete single,
        singles,
        weigh-single run,
        weigh-single (column g dest),
        weigh-append single run rest,
        ap (weigh single) e,
        weigh_all-set single g.tableau src [] (rw h.seven l),
        weigh_le single (set g.tableau src []) dest,
        ap (weigh single) (get_or-set_ne g.tableau src dest [] n),
      ) in
      ground (
        arith,
        e,
        size,
        last,
        ups,
        falls,
        length-append run rest,
        take-append_all run rest,
        drop-append_all run rest,
        (can_place_on_tableau_iff deepest (column g dest)).1 f,
        push_run-append (column g dest) run ups room,
      )
