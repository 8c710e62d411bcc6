-- ===== src/Rag/Tests.antt =====
-- A small text, split as internal/rpc/agent/rag/chunker.go does.
use liveclass.Prelude.{ℕ, ◌≤◌, ◌≡◌, refl, List, [], ◌∷◌, All, length, arith}
use liveclass.Rag.{split_bounded, split_loop}
use liveclass.Rag.Pieces.{join_chunks, split_bounded-join_chunks}

abbrev five : List ℕ
five = 1 ∷ 2 ∷ 3 ∷ 4 ∷ 5 ∷ []

split_five : split_bounded five 3 1 ≡ (1 ∷ 2 ∷ 3 ∷ []) ∷ (3 ∷ 4 ∷ 5 ∷ []) ∷ []
unfolding split_bounded split_loop
split_five = refl

split_bounded-join_chunks_example :
    All (λ c. length c ≤ 3) (split_bounded five 3 1)
    × (join_chunks 1 (split_bounded five 3 1) ≡ five)
split_bounded-join_chunks_example = split_bounded-join_chunks five 3 1 (omega arith)
