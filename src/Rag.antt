-- ===== src/Rag.antt =====
-- The document chunker of the assistant's retrieval, internal/rpc/agent/rag/chunker.go: the loop of
-- splitBounded, on the runes of the trimmed text, for an overlap below the size, as the config's
-- validation demands; one round for each rune is fuel enough.
pub mod Pieces
pub mod Tests
use liveclass.Prelude.{
  ℕ, zero, suc, ◌+◌, ◌-◌, Bool, List, [], ◌∷◌, length, take, drop, ltb, nat_beq, if◌then◌else◌,
}

module _ {A : Type 0} where
  -- `runes[start:end]`
  abbrev pub slice : List A → ℕ → ℕ → List A
  slice runes start end = take (end - start) (drop start runes)

  -- The end of a chunk.
  abbrev pub chunk_end : List A → ℕ → ℕ → ℕ
  chunk_end runes size start =
      if ltb (length runes) (start + size) then length runes else start + size

  -- The loop, on fuel.
  unfoldable pub split_loop : ℕ → List A → ℕ → ℕ → ℕ → List (List A)
  split_loop zero runes size overlap start = []
  split_loop (suc fuel) runes size overlap start =
      let end = chunk_end runes size start in
      let rest = split_loop fuel runes size overlap (start + (size - overlap)) in
      if ltb start (length runes)
      then slice runes start end ∷ (if nat_beq end (length runes) then [] else rest)
      else []

  -- `splitBounded`
  unfoldable pub split_bounded : List A → ℕ → ℕ → List (List A)
  split_bounded runes size overlap =
      if nat_beq (length runes) 0 then [] else split_loop (length runes) runes size overlap 0
