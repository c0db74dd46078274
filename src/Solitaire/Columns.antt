-- ===== src/Solitaire/Columns.antt =====
-- What the rules on single piles keep.
use packages_repo_main.Solitaire.Rules.{
  IsStacked, onto, turned, one, up, IsBuilt, IsColumn, AllFacing, FitsFoundation, IsRun, FitsColumn,
}
use packages_repo_main.Solitaire.Cards.{suit, reveal_tail, Pile}
use packages_repo_main.Prelude.{refl, [], arith, ◌∷◌, false, ◌++◌, ℕ}

IsStacked-rest : (run rest : Pile) → IsStacked (run ++ rest) → IsStacked rest
IsStacked-rest [] rest o = o
IsStacked-rest (s ∷ []) [] o = tt
IsStacked-rest (s ∷ []) (t ∷ p) o = o.1
IsStacked-rest (s ∷ r ∷ run) rest o = IsStacked-rest (r ∷ run) rest o.1

reveal_tail-IsColumn : (p : Pile) → IsStacked p → IsColumn (reveal_tail p)
unfolding reveal_tail
reveal_tail-IsColumn [] o = record { top = tt; ordered = tt }
reveal_tail-IsColumn (s ∷ []) o = record { top = refl; ordered = tt }
reveal_tail-IsColumn (s ∷ t ∷ p) o = record { top = refl; ordered = (λ u. (refl, (o.0 u).1), o.1) }

-- What is left of a column when a run is taken from it is a column, once its top is revealed.
pub reveal_rest-IsColumn : (run rest : Pile) → IsColumn (run ++ rest) → IsColumn (reveal_tail rest)
reveal_rest-IsColumn run rest c = reveal_tail-IsColumn rest (IsStacked-rest run rest c.ordered)

pub up-IsColumn : (c : ℕ) (p : Pile) → FitsColumn c p → IsColumn p → IsColumn (up c ∷ p)
up-IsColumn c [] f k = record { top = refl; ordered = tt }
up-IsColumn c (s ∷ p) f k = record { top = refl; ordered = (λ u. (refl, f.1), k.ordered) }

-- A run that goes onto a column makes a longer column.
pub run-IsColumn :
    (deepest : ℕ) (run p : Pile)
    → IsRun deepest run
    → FitsColumn deepest p
    → IsColumn p
    → IsColumn (run ++ p)
run-IsColumn deepest run p (one e) f k = rw e (up-IsColumn deepest p f k)
run-IsColumn deepest run p (onto c d q e s r) f k =
    rw e (up-IsColumn c (up d ∷ q ++ p) (refl, s) (run-IsColumn deepest (up d ∷ q) p r f k))

pub home-IsBuilt :
    (c : ℕ) (p : Pile) → FitsFoundation c p → IsBuilt (suit c) p → IsBuilt (suit c) (up c ∷ p)
home-IsBuilt c [] f b = omega (arith, f)
home-IsBuilt c (s ∷ p) f b = (omega (arith, f.0, f.1, b.0), omega (arith, f.0, f.1, b.0, b.1), b)

pub turned-AllFacing : (p q : Pile) → AllFacing false q → AllFacing false (turned p q)
turned-AllFacing [] q a = a
turned-AllFacing (s ∷ p) q a =
    turned-AllFacing p (record { card = s.card; face_up = false } ∷ q) (refl, a)
