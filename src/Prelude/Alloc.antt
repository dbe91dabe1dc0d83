-- ===== src/Prelude/Alloc.antt =====
-- The allocator as the list of the outcomes of the next allocation calls. A list that is used up
-- stands for calls that succeed.
use mathlib.Core.Path.{◌≡◌, refl}
use mathlib.Core.Bool.{Bool, true}
use mathlib.Core.List.{List, [], ◌∷◌}

abbrev pub Memory : Type 0
Memory = List Bool

abbrev pub malloc : Memory → Bool × Memory
malloc [] = (true, [])
malloc (b ∷ m) = (b, m)

-- No allocation to come fails.
abbrev pub Plenty : Memory → Type 0
Plenty [] = Unit
Plenty (b ∷ m) = (b ≡ true) × Plenty m

pub malloc-Plenty : (m : Memory) → Plenty m → ((malloc m).0 ≡ true) × Plenty (malloc m).1
malloc-Plenty [] h = (refl, tt)
malloc-Plenty (b ∷ m) h = h
