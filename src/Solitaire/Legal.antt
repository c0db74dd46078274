-- ===== src/Solitaire/Legal.antt =====
-- A legal move leads from a legal game to a legal game.
use packages_repo_main.Solitaire.Columns.{
  run-IsColumn, reveal_rest-IsColumn, home-IsBuilt, up-IsColumn, turned-AllFacing,
}
use packages_repo_main.Solitaire.Weight.{
  get_or-set_ne, weigh-append, each-set, weigh-reveal_tail, weigh_all-set, weigh-turned, weigh_le,
  pile_weighs_no_foreign, card_lt,
}
use packages_repo_main.Solitaire.Rules.{
  IsBuilt, IsColumn, run_onto_column, weigh, column_to_home, IsRun, waste_to_home,
  waste_onto_column, FitsColumn, turned, up, turn_over, FitsFoundation, counted, draw, Move, IsGame,
}
use packages_repo_main.Solitaire.Cards.{
  reveal_tail, suit, foundation, tableau_count, column, Pile, Slot, Game,
}
use packages_repo_main.Prelude.{
  subst, ◌∙◌, refl, length-set, length, ap, ◌++◌, set, arith, ◌≢◌, ◌<◌, [], ◌∷◌, ◌≡◌, ℕ,
}

pub waste_card_lt :
    (g : Game) (s : Slot) (rest : Pile) → IsGame g → g.waste ≡ s ∷ rest → s.card < 52
waste_card_lt g s rest h e =
    card_lt s rest (rw e at (pile_weighs_no_foreign g g.waste h (λ w. omega arith)))

pub column_card_lt :
    (g : Game) (i : ℕ) (s : Slot) (rest : Pile) → IsGame g → column g i ≡ s ∷ rest → s.card < 52
column_card_lt g i s rest h e =
    card_lt s rest (
      rw e at
        (pile_weighs_no_foreign g (column g i) h (λ w. omega (arith, weigh_le w g.tableau i))))

module _ (g : Game) (h : IsGame g) where
  draw-IsGame :
      (s : Slot) (rest : Pile)
      → g.stock ≡ s ∷ rest
      → IsGame (counted (record g { stock = rest; waste = up s.card ∷ g.waste }))
  draw-IsGame s rest e = record {
    complete = λ w. omega (arith, h.complete w, ap (weigh w) e);
    four = h.four;
    seven = h.seven;
    built = h.built;
    columns = h.columns;
    stock_down = (rw e at h.stock_down).1;
    waste_up = (refl, h.waste_up);
  }

  turn_over-IsGame :
      g.stock ≡ [] → IsGame (counted (record g { stock = turned g.waste []; waste = [] }))
  turn_over-IsGame e = record {
    complete = λ w. omega (arith, h.complete w, ap (weigh w) e, weigh-turned w g.waste []);
    four = h.four;
    seven = h.seven;
    built = h.built;
    columns = h.columns;
    stock_down = turned-AllFacing g.waste [] tt;
    waste_up = tt;
  }

  waste_onto_column-IsGame :
      (s : Slot) (rest : Pile) (dest : ℕ)
      → g.waste ≡ s ∷ rest
      → dest < tableau_count
      → FitsColumn s.card (column g dest)
      → IsGame (
          counted
            (record g { waste = rest; tableau = set g.tableau dest (up s.card ∷ column g dest) }))
  waste_onto_column-IsGame s rest dest e d f =
      let grown = up s.card ∷ column g dest in
      record {
        complete = λ w. omega (
          arith,
          h.complete w,
          ap (weigh w) e,
          weigh_all-set w g.tableau dest grown (rw h.seven d),
        );
        four = h.four;
        seven = length-set g.tableau dest grown ∙ h.seven;
        built = h.built;
        columns =
            each-set (λ i p. IsColumn p) g.tableau dest grown h.columns
              (up-IsColumn s.card (column g dest) f (h.columns dest));
        stock_down = h.stock_down;
        waste_up = (rw e at h.waste_up).1;
      }

  waste_to_home-IsGame :
      (s : Slot) (rest : Pile)
      → g.waste ≡ s ∷ rest
      → FitsFoundation s.card (foundation g (suit s.card))
      → IsGame (
          counted (record g {
            waste = rest;
            foundations = set g.foundations (suit s.card) (up s.card ∷ foundation g (suit s.card));
          }))
  waste_to_home-IsGame s rest e f =
      let i = suit s.card in
      let grown = up s.card ∷ foundation g i in
      record {
        complete = λ w. omega (
          arith,
          h.complete w,
          ap (weigh w) e,
          weigh_all-set w g.foundations i grown (omega (arith, h.four, waste_card_lt g s rest h e)),
        );
        four = length-set g.foundations i grown ∙ h.four;
        seven = h.seven;
        built =
            each-set IsBuilt g.foundations i grown h.built
              (home-IsBuilt s.card (foundation g i) f (h.built i));
        columns = h.columns;
        stock_down = h.stock_down;
        waste_up = (rw e at h.waste_up).1;
      }

  column_to_home-IsGame :
      (c : ℕ) (rest : Pile) (src : ℕ)
      → src < tableau_count
      → column g src ≡ up c ∷ rest
      → FitsFoundation c (foundation g (suit c))
      → IsGame (
          counted (record g {
            tableau = set g.tableau src (reveal_tail rest);
            foundations = set g.foundations (suit c) (up c ∷ foundation g (suit c));
          }))
  column_to_home-IsGame c rest src l e f =
      let i = suit c in
      let grown = up c ∷ foundation g i in
      record {
        complete = λ w. omega (
          arith,
          h.complete w,
          ap (weigh w) e,
          weigh-reveal_tail w rest,
          weigh_all-set w g.tableau src (reveal_tail rest) (rw h.seven l),
          weigh_all-set w g.foundations i grown
              (omega (arith, h.four, column_card_lt g src (up c) rest h e)),
        );
        four = length-set g.foundations i grown ∙ h.four;
        seven = length-set g.tableau src (reveal_tail rest) ∙ h.seven;
        built =
            each-set IsBuilt g.foundations i grown h.built
              (home-IsBuilt c (foundation g i) f (h.built i));
        columns =
            each-set (λ j p. IsColumn p) g.tableau src (reveal_tail rest) h.columns
              (reveal_rest-IsColumn (up c ∷ []) rest (subst IsColumn e (h.columns src)));
        stock_down = h.stock_down;
        waste_up = h.waste_up;
      }

  run_onto_column-IsGame :
      (run rest : Pile) (deepest src dest : ℕ)
      → src < tableau_count
      → dest < tableau_count
      → src ≢ dest
      → column g src ≡ run ++ rest
      → IsRun deepest run
      → FitsColumn deepest (column g dest)
      → IsGame (
          counted (record g {
            tableau = set (set g.tableau src (reveal_tail rest)) dest (run ++ column g dest);
          }))
  run_onto_column-IsGame run rest deepest src dest l m n e r f =
      let lower = reveal_tail rest in
      let left = set g.tableau src lower in
      let grown = run ++ column g dest in
      let many : length left ≡ tableau_count = length-set g.tableau src lower ∙ h.seven in
      record {
        complete = λ w. omega (
          arith,
          h.complete w,
          ap (weigh w) e,
          weigh-append w run rest,
          weigh-append w run (column g dest),
          weigh-reveal_tail w rest,
          weigh_all-set w g.tableau src lower (rw h.seven l),
          weigh_all-set w left dest grown (rw many m),
          ap (weigh w) (get_or-set_ne g.tableau src dest lower n),
        );
        four = h.four;
        seven = length-set left dest grown ∙ many;
        built = h.built;
        columns =
            each-set (λ j p. IsColumn p) left dest grown
              (each-set (λ j p. IsColumn p) g.tableau src lower h.columns
                (reveal_rest-IsColumn run rest (subst IsColumn e (h.columns src))))
              (run-IsColumn deepest run (column g dest) r f (h.columns dest));
        stock_down = h.stock_down;
        waste_up = h.waste_up;
      }

-- A legal move keeps a game legal: all cards are still there, the foundations are built from the ace
-- on, and the columns are in order with their top face up.
pub Move-IsGame : (g g' : Game) → IsGame g → Move g g' → IsGame g'
Move-IsGame g g' h (draw s rest e k) = rw k (draw-IsGame g h s rest e)
Move-IsGame g g' h (turn_over e n k) = rw k (turn_over-IsGame g h e)
Move-IsGame g g' h (waste_onto_column s rest dest e d f k) =
    rw k (waste_onto_column-IsGame g h s rest dest e d f)
Move-IsGame g g' h (waste_to_home s rest e f k) = rw k (waste_to_home-IsGame g h s rest e f)
Move-IsGame g g' h (column_to_home c rest src l e f k) =
    rw k (column_to_home-IsGame g h c rest src l e f)
Move-IsGame g g' h (run_onto_column run rest deepest src dest l m n e r f k) =
    rw k (run_onto_column-IsGame g h run rest deepest src dest l m n e r f)
