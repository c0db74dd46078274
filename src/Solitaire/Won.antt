-- ===== src/Solitaire/Won.antt =====
-- When the game is won, and what the undoing of a move gives back.
use packages_repo_main.Solitaire.Session.{undo_move_cons}
use packages_repo_main.Solitaire.Refine.{made, refused, act-Step, act, Action}
use packages_repo_main.Solitaire.Weight.{weigh_le, weigh-single, single}
use packages_repo_main.Solitaire.Moves.{commit, refuse, save_undo}
use packages_repo_main.Solitaire.Rules.{weigh, weigh_all, IsGame, weigh_below}
use packages_repo_main.Solitaire.Cards.{max_undo, column, Status, set_status, App, Game, Pile}
use packages_repo_main.Solitaire.Select.{undo_move, won, all_home}
use packages_repo_main.Prelude.{
  inr, take, inl, ◌+◌, ◌⊎◌, ap, ◌==◌, ◌*◌, false, Bool-cases, arith, refl, Bool, ◌∷◌, [], true, ◌≡◌,
  length, List, ℕ,
}

all_home-size : (ps : List Pile) → all_home ps ≡ true → weigh_all single ps ≡ 13 * length ps
unfolding all_home
all_home-size [] h = refl
all_home-size (p ∷ ps) h =
    let size : length p ≡ 13 = ground (arith, h) in
    omega (arith, size, weigh-single p, all_home-size ps (ground (arith, h)))

length_zero : (p : Pile) → length p ≡ 0 → p ≡ []
length_zero [] e = refl
length_zero (s ∷ p) e = absurd (omega (arith, e))

singles : weigh_below single 52 ≡ 52
singles = refl

-- A legal game that counts as won has nothing left beside the foundations.
pub won-eq-nil :
    (g : Game)
    → IsGame g
    → won g ≡ true
    → (g.stock ≡ []) × (g.waste ≡ []) × ((i : ℕ) → column g i ≡ [])
unfolding won
won-eq-nil g h w =
    let home = all_home-size g.foundations w in
    let all : weigh single g.stock + weigh single g.waste + weigh_all single g.tableau ≡ 0 =
      omega (arith, h.complete single, singles, home, h.four) in
    (
      length_zero g.stock (omega (arith, all, weigh-single g.stock)),
      length_zero g.waste (omega (arith, all, weigh-single g.waste)),
      λ i.
          length_zero (column g i)
            (omega (arith, all, weigh-single (column g i), weigh_le single g.tableau i)),
    )

saved_first : (app : App) → (rest : List Game) × ((save_undo app).undo ≡ app.game ∷ rest)
unfolding save_undo
saved_first app = elim (Bool-cases (length app.undo == max_undo)) [
  | inl e ↦ rw e (take 31 app.undo, refl)
  | inr e ↦ rw e (app.undo, refl)
]

undo_of_refused :
    (app : App) (text : Status) (r : Bool × App)
    → r ≡ refuse app text
    → (r.0 ≡ false) × (r.1.game ≡ app.game) × (r.1.undo ≡ app.undo)
unfolding refuse set_status
undo_of_refused app text r e = rw e (refl, refl, refl)

undo_of_made :
    (app : App) (g : Game) (text : Status) (r : Bool × App)
    → r ≡ commit app g text
    → (r.0 ≡ true) × ((undo_move r.1).game ≡ app.game)
unfolding commit set_status
undo_of_made app g text r e =
    let (rest, saved) = saved_first app in
    rw e (refl, ap (λ (a : App). a.game) (undo_move_cons (commit app g text).1 app.game rest saved))

-- A call that makes a move can be undone, which gives the game back; one that does not leaves the
-- game and the saved games as they were.
pub act-undo :
    (a : Action) (app : App)
    → IsGame app.game
    → (((act a app).0 ≡ true) × ((undo_move (act a app).1).game ≡ app.game))
      ⊎ (((act a app).0 ≡ false)
          × ((act a app).1.game ≡ app.game)
          × ((act a app).1.undo ≡ app.undo))
act-undo a app h = elim (act-Step a app h) [
  | refused text e ↦ inr (undo_of_refused app text (act a app) e)
  | made g text m e ↦ inl (undo_of_made app g text (act a app) e)
]
