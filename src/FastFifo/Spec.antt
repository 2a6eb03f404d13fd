-- ===== src/FastFifo/Spec.antt =====
-- webserver/fast_fifo.h: what `FastFIFO` promises, over a list of its nodes and their data, front
-- first.
use libeventdisp.Base.{
  ℕ, Bool, false, Option, none, some, List, [], ◌∷◌, ◌++◌, ◌==◌, ◌||◌, if◌then◌else◌,
}

-- Each node with its data.
abbrev pub Cells : Type 0
Cells = List (ℕ × ℕ)

abbrev pub has : ℕ → Cells → Bool
has a [] = false
has a ((b, x) ∷ l) = (b == a) || has a l

unfoldable pub push : ℕ → ℕ → Cells → Cells
push node item l = l ++ (node, item) ∷ []

-- The front's data, if there is a front.
unfoldable pub pop : Cells → Option ℕ × Cells
pop [] = (none, [])
pop ((a, x) ∷ l) = (some x, l)

unfoldable pub remove : ℕ → Cells → Cells
remove node [] = []
remove node ((a, x) ∷ l) = if a == node then l else (a, x) ∷ remove node l
