-- ===== src/Glb/Tests.antt =====
-- A small file, and the theorems on it.
use studio_worker.Base.{ℕ, ◌≡◌, refl, List, [], ◌∷◌, length, arith}
use studio_worker.Glb.{assemble, check, valid, padded}
use studio_worker.Glb.Laws.{check-assemble}

abbrev document : List ℕ
document = 123 ∷ 125 ∷ []

abbrev buffer : List ℕ
buffer = 1 ∷ 2 ∷ 3 ∷ 4 ∷ 5 ∷ []

forty_bytes : length (assemble document buffer) ≡ 40
unfolding assemble padded
forty_bytes = refl

check-assemble_example : check (assemble document buffer) ≡ valid
unfolding assemble padded
check-assemble_example = check-assemble document buffer (omega arith)
