-- ===== src/Transfer/FilePath/Segments.antt =====
-- The parts of a text between its slashes.
use irosh.Common.{ℕ, ◌==◌, ◌≡◌, refl, false, List, [], ◌∷◌, ◌++◌, arith, All}
use irosh.Transfer.Types.{Text}
use irosh.Transfer.FilePath.{contains, cons_head, split}

abbrev pub Lacks : ℕ → Text → Type 0
Lacks c s = contains c s ≡ false

cons_head-Lacks :
    (c d : ℕ) (ws : List Text)
    → (c == d) ≡ false
    → All (Lacks d) ws
    → All (Lacks d) (cons_head c ws)
cons_head-Lacks c d [] h all = ground arith
cons_head-Lacks c d (w ∷ ws) h all = ground (arith, all.0)

-- No part holds a slash, and a part holds nothing that the text lacks.
pub split-Lacks_slash : (s : Text) → All (Lacks b'/') (split s)
unfolding split
split-Lacks_slash [] = (refl, tt)
split-Lacks_slash (c ∷ s) = ground (arith, split-Lacks_slash s, cons_head-Lacks c b'/' (split s))

pub split-Lacks : (d : ℕ) (s : Text) → Lacks d s → All (Lacks d) (split s)
unfolding split
split-Lacks d [] h = (refl, tt)
split-Lacks d (c ∷ s) h = ground (arith, split-Lacks d s, cons_head-Lacks c d (split s))

-- A part before a slash is split off.
pub split-slash : (w s : Text) → Lacks b'/' w → split (w ++ (b'/' ∷ s)) ≡ w ∷ split s
unfolding split
split-slash [] s h = refl
split-slash (c ∷ w) s h = ground (arith, split-slash w s)

pub split_one : (w : Text) → Lacks b'/' w → split w ≡ w ∷ []
unfolding split
split_one [] h = refl
split_one (c ∷ w) h = ground (arith, split_one w)
