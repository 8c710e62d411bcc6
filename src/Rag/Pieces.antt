-- ===== src/Rag/Pieces.antt =====
-- The chunks of splitBounded, internal/rpc/agent/rag/chunker.go, put together again.
use liveclass.Prelude.{
  ℕ, zero, suc, ◌+◌, ◌-◌, ◌≤◌, ◌<◌, ◌≡◌, refl, sym, ap, ◌∙◌, List, [], ◌∷◌, ◌++◌, All, length,
  length-drop, take, drop, ltb, nat_beq, if_holds, arith,
}
use liveclass.Rag.{slice, chunk_end, split_loop, split_bounded}

module _ {A : Type 0} where
  -- The first chunk, and of each further one what lies behind the overlap.
  unfoldable pub join_chunks : ℕ → List (List A) → List A
  join_chunks overlap [] = []
  join_chunks overlap (c ∷ cs) = c ++ drop overlap (join_chunks overlap cs)

  drop_nil : (n : ℕ) → drop {A = A} n [] ≡ []
  drop_nil zero = refl
  drop_nil (suc n) = refl

  drop-drop : (m n : ℕ) (xs : List A) → drop m (drop n xs) ≡ drop (n + m) xs
  drop-drop m zero xs = ap (λ i. drop i xs) (omega arith)
  drop-drop m (suc n) [] = drop_nil m ∙ sym (drop_nil (suc n + m))
  drop-drop m (suc n) (x ∷ xs) = drop-drop m n xs ∙ ap (λ i. drop i (x ∷ xs)) same
    where
      same : suc (n + m) ≡ suc n + m
      same = omega arith

  take-drop : (n : ℕ) (xs : List A) → (take n xs ++ drop n xs) ≡ xs
  take-drop zero xs = refl
  take-drop (suc n) [] = refl
  take-drop (suc n) (x ∷ xs) = ap (λ ys. x ∷ ys) (take-drop n xs)

  take_all : (n : ℕ) (xs : List A) → length xs ≤ n → take n xs ≡ xs
  take_all zero [] h = refl
  take_all zero (x ∷ xs) h = ground (arith, h)
  take_all (suc n) [] h = refl
  take_all (suc n) (x ∷ xs) h = ap (λ ys. x ∷ ys) (take_all n xs (omega (arith, h)))

  append_nil : (xs : List A) → (xs ++ []) ≡ xs
  append_nil [] = refl
  append_nil (x ∷ xs) = ap (λ ys. x ∷ ys) (append_nil xs)

  length-take_le : (n : ℕ) (xs : List A) → length (take n xs) ≤ n
  length-take_le zero xs = omega arith
  length-take_le (suc n) [] = omega arith
  length-take_le (suc n) (x ∷ xs) = omega (arith, length-take_le n xs)

  no_runes : (xs : List A) → length xs ≡ 0 → [] ≡ xs
  no_runes [] h = refl
  no_runes (x ∷ xs) h = ground (arith, h)

  -- With enough fuel the chunks from an index make up the text from there.
  join-loop :
      (fuel : ℕ) (runes : List A) (size overlap start : ℕ)
      → overlap < size
      → start < length runes
      → length runes ≤ start + fuel
      → join_chunks overlap (split_loop fuel runes size overlap start) ≡ drop start runes
  unfolding split_loop join_chunks
  join-loop zero runes size overlap start o s f = ground (arith, s, f)
  join-loop (suc fuel) runes size overlap start o s f =
      if_holds Joined (ltb start (length runes)) _ []
        (λ _.
          if_holds (λ cs. Joined (here ∷ cs)) (nat_beq end (length runes)) [] _
            (λ e.
              ap (λ t. here ++ t) (drop_nil overlap)
              ∙ append_nil here
              ∙ take_all (end - start) (drop start runes)
                  (ground (arith, length-drop start runes, e)))
            (λ more.
              let inside : (end ≡ start + size) × (end < length runes) = ground (arith, more) in
              let whole : start + (size - overlap) + overlap ≡ start + (end - start) =
                omega (arith, inside, o) in
              ap (λ t. here ++ drop overlap t)
                (join-loop fuel runes size overlap (start + (size - overlap)) o
                  (omega (arith, inside, o)) (omega (arith, f, o)))
              ∙ ap (λ t. here ++ t) (drop-drop overlap (start + (size - overlap)) runes)
              ∙ ap (λ i. here ++ drop i runes) whole
              ∙ ap (λ t. here ++ t) (sym (drop-drop (end - start) start runes))
              ∙ take-drop (end - start) (drop start runes)))
        (λ out. ground (arith, out, s))
    where
      end : ℕ
      end = chunk_end runes size start

      here : List A
      here = slice runes start end

      Joined : List (List A) → Type 0
      Joined cs = join_chunks overlap cs ≡ drop start runes

  loop_bounded :
      (fuel : ℕ) (runes : List A) (size overlap start : ℕ)
      → All (λ c. length c ≤ size) (split_loop fuel runes size overlap start)
  unfolding split_loop
  loop_bounded zero runes size overlap start = tt
  loop_bounded (suc fuel) runes size overlap start =
      if_holds Bounded (ltb start (length runes)) _ []
        (λ _.
          if_holds (λ cs. Bounded (slice runes start end ∷ cs)) (nat_beq end (length runes)) [] _
            (λ _. (fits, tt))
            (λ _. (fits, loop_bounded fuel runes size overlap (start + (size - overlap)))))
        (λ _. tt)
    where
      end : ℕ
      end = chunk_end runes size start

      Bounded : List (List A) → Type 0
      Bounded cs = All (λ c. length c ≤ size) cs

      fits : length (slice runes start end) ≤ size
      fits = ground (arith, length-take_le (end - start) (drop start runes))

  -- For a chunk size above the overlap, the chunks of a text have at most the chunk size, and put
  -- together, of each but the first only what lies behind the overlap, they are the text.
  pub split_bounded-join_chunks :
      (runes : List A) (size overlap : ℕ)
      → overlap < size
      → All (λ c. length c ≤ size) (split_bounded runes size overlap)
        × (join_chunks overlap (split_bounded runes size overlap) ≡ runes)
  unfolding split_bounded join_chunks
  split_bounded-join_chunks runes size overlap o =
      if_holds Right (nat_beq (length runes) 0) [] _ (λ e. (tt, no_runes runes (ground (arith, e))))
        (λ some_runes. (
          loop_bounded (length runes) runes size overlap 0,
          join-loop (length runes) runes size overlap 0 o (ground (arith, some_runes))
              (omega arith),
        ))
    where
      Right : List (List A) → Type 0
      Right cs = All (λ c. length c ≤ size) cs × (join_chunks overlap cs ≡ runes)
