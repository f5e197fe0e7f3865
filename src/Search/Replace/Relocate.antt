-- ===== src/Search/Replace/Relocate.antt =====
-- replace.ts, `relocate`: where it lands in a text that has changed.
use mathlib.Core.List.{foldl}
use inkstave.Prelude.{
  ℕ, zero, suc, ◌≤◌, ◌≡◌, sym, subst, true, some, List, [], ◌∷◌, ltb, ◌==◌, length, get_elem?,
  text_eq_sound, filter_by, Bool-cases, Option-cases, inl, inr, arith, All, ◌⊎◌,
}
use inkstave.Search.Find.{TextMatch}
use inkstave.Search.Replace.{same_match, index_from, apart, nearer, nearest, relocate}

-- `m` is one of the matches.
abbrev pub IsAmong : TextMatch → List TextMatch → Type 0
IsAmong m [] = ⊥
IsAmong m (x ∷ xs) = (m ≡ x) ⊎ IsAmong m xs

abbrev pub SameLine : TextMatch → TextMatch → Type 0
SameLine a b = (a.text ≡ b.text) × (a.line_text ≡ b.line_text) × (a.column ≡ b.column)

same_match_sound : (a b : TextMatch) → same_match a b ≡ true → SameLine a b
unfolding same_match
same_match_sound a b h = (
  text_eq_sound a.text b.text (ground arith),
  text_eq_sound a.line_text b.line_text (ground arith),
  ground arith,
)

module _ (wanted : TextMatch) where
  abbrev candidates : List TextMatch → List TextMatch
  candidates = filter_by (λ match. same_match match wanted)

  candidates_sound :
      (ms : List TextMatch) (m : TextMatch)
      → IsAmong m (candidates ms)
      → IsAmong m ms × SameLine m wanted
  candidates_sound [] m h = absurd h
  candidates_sound (x ∷ ms) m h = elim (Bool-cases (same_match x wanted)) [
    | inl e ↦ elim (rw e at h) [
      | inl same ↦
          (inl same, subst (λ a. SameLine a wanted) (sym same) (same_match_sound x wanted e))
      | inr later ↦ let r = candidates_sound ms m later in (inr r.0, r.1)
    ]
    | inr e ↦ let r = candidates_sound ms m (rw e at h) in (inr r.0, r.1)
  ]

  get_elem?-IsAmong :
      (ms : List TextMatch) (i : ℕ) (m : TextMatch) → get_elem? ms i ≡ some m → IsAmong m ms
  get_elem?-IsAmong [] i m h = cc
  get_elem?-IsAmong (x ∷ ms) zero m h = inl (cc)
  get_elem?-IsAmong (x ∷ ms) (suc i) m h = inr (get_elem?-IsAmong ms i m h)

  abbrev far : TextMatch → ℕ
  far m = apart m.from wanted.from

  -- The loop from a best match so far ends at one that is as near as all that it has seen.
  nearest_from :
      (ms : List TextMatch) (best m : TextMatch)
      → foldl (nearer wanted) (some best) ms ≡ some m
      → ((m ≡ best) ⊎ IsAmong m ms) × (far m ≤ far best) × All (λ x. far m ≤ far x) ms
  unfolding nearer
  nearest_from [] best m h =
      let e : m ≡ best = cc in (inl e, subst (λ x. far x ≤ far best) (sym e) (omega arith), tt)
  nearest_from (x ∷ ms) best m h = elim (Bool-cases (ltb (far x) (far best))) [
    | inl e ↦ let r = nearest_from ms x m (rw e at h) in (inr r.0, ground arith, (r.1, r.2))
    | inr e ↦
        let r = nearest_from ms best m (rw e at h) in
        (elim r.0 [ inl p ↦ inl p | inr q ↦ inr (inr q) ], r.1, (ground arith, r.2))
  ]

  nearest_sound :
      (ms : List TextMatch) (m : TextMatch)
      → nearest wanted ms ≡ some m
      → IsAmong m ms × All (λ x. far m ≤ far x) ms
  unfolding nearest nearer
  nearest_sound [] m h = cc
  nearest_sound (x ∷ ms) m h = let r = nearest_from ms x m h in (r.0, (r.1, r.2))

-- A replacement never lands where the writer did not see it: what `relocate` finds is one of the
-- current matches, with the wanted text at the wanted column of a line that reads the same.
pub relocate_sound :
    (current seen : List TextMatch) (wanted m : TextMatch)
    → relocate current wanted seen ≡ some m
    → IsAmong m current × SameLine m wanted
unfolding relocate
relocate_sound current seen wanted m h = candidates_sound wanted current m among
  where
    by_distance :
        nearest wanted (candidates wanted current) ≡ some m → IsAmong m (candidates wanted current)
    by_distance k = (nearest_sound wanted (candidates wanted current) m k).0

    among : IsAmong m (candidates wanted current)
    among = elim (Option-cases (index_from wanted.from (candidates wanted seen))) [
      | inl e ↦ by_distance (rw (e, relocate) at h)
      | inr (rank, e) ↦
          elim (Bool-cases
            (length (candidates wanted seen) == length (candidates wanted current))) [
              | inl f ↦
                  get_elem?-IsAmong wanted (candidates wanted current) rank m
                    (rw (e, f, relocate) at h)
              | inr f ↦ by_distance (rw (e, f, relocate) at h)
            ]
    ]
