-- ===== src/Search/Find/LineIndex.antt =====
-- find.ts, `lineIndexOf`: the line that holds an offset.
use inkstave.Prelude.{
  ℕ, zero, suc, ◌+◌, ◌-◌, ◌/◌, ◌≤◌, ◌<◌, ◌≡◌, sym, subst, List, ◌∷◌, ltb, leb, length, arith,
  Bool-cases, inl, inr,
}
use inkstave.Search.Find.{start_at, search_line, line_index_of}

-- The line `i` is the last that starts at or before `offset`, as far as `i` and `i + 1` tell.
abbrev pub HoldsOffset : List ℕ → ℕ → ℕ → Type 0
HoldsOffset starts offset i =
    (i < length starts)
    × (start_at starts i ≤ offset)
    × (suc i < length starts → offset < start_at starts (suc i))

search_line-HoldsOffset :
    (fuel : ℕ) (starts : List ℕ) (offset low high : ℕ)
    → high - low < fuel
    → low ≤ high
    → high < length starts
    → start_at starts low ≤ offset
    → (suc high < length starts → offset < start_at starts (suc high))
    → HoldsOffset starts offset (search_line fuel starts offset low high)
unfolding search_line
search_line-HoldsOffset zero starts offset low high f h k a b = absurd (omega arith)
search_line-HoldsOffset (suc fuel) starts offset low high f h k a b =
    elim (Bool-cases (ltb low high)) [
      | inl more ↦
          let lt : low < high = ground arith in
          elim (Bool-cases (leb (start_at starts mid) offset)) [
            | inl here ↦
                rw (more, here)
                  (search_line-HoldsOffset fuel starts offset mid high (omega arith) (omega arith) k
                    (ground arith) b)
            | inr before ↦
                let next : suc (mid - 1) ≡ mid = omega arith in
                let late : offset < start_at starts mid = ground arith in
                rw (more, before)
                  (search_line-HoldsOffset fuel starts offset low (mid - 1) (omega arith)
                    (omega arith) (omega arith) a
                    (λ _. subst (λ j. offset < start_at starts j) (sym next) late))
          ]
      | inr done ↦
          let same : high ≡ low = ground arith in
          rw done (
            omega arith,
            a,
            λ q. subst (λ j. offset < start_at starts (suc j)) same (b (omega arith)),
          )
    ]
  where
    mid : ℕ
    mid = (low + high + 1) / 2

-- With the first line at the front of the text, the search ends at the line that holds the offset.
pub line_index_of-HoldsOffset :
    (starts : List ℕ) (offset : ℕ)
    → HoldsOffset (0 ∷ starts) offset (line_index_of (0 ∷ starts) offset)
unfolding line_index_of
line_index_of-HoldsOffset starts offset =
    search_line-HoldsOffset (suc (length starts)) (0 ∷ starts) offset 0 (suc (length starts) - 1)
      (omega arith) (omega arith) (omega arith) (omega arith) (λ q. absurd (omega arith))
