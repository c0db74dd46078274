-- ===== src/Solitaire.antt =====
-- solitaire/src/main.cpp: the card game. Drawing on the console and reading keys are system calls and
-- are not modelled; a message that `set_status` copies is a constructor of `Status`.
pub mod Cards
pub mod Deal
pub mod Moves
pub mod Select
pub mod Commands
pub mod Rules
pub mod Weight
pub mod Columns
pub mod Legal
pub mod Guards
pub mod Commits
pub mod Refine
pub mod Session
pub mod Keys
pub mod Loop
pub mod Won
pub mod Best
pub mod Tests
