-- ===== src/Suggestions/Records/Undoes.antt =====
-- review.ts: a suggestion that is rejected.
use inkstave.Prelude.{
  ℕ, ◌+◌, ◌-◌, ◌≤◌, ◌≡◌, refl, sym, ap, ap₂, ◌∙◌, Bool, true, some, List, ◌++◌, String, Text,
  if◌then◌else◌, if-split, ltb, leb, length, take, drop, slice, arith, subst, take-append,
  drop-append, take-append-drop, length-append, length-take, length-drop, split_three,
}
use inkstave.Crdt.{YText}
use inkstave.Suggestions.Planner.{TextRange}
use inkstave.Suggestions.Records.{
  insertion, deletion, Suggestion, reject, get_record, delete_record, Positions, resolve_kind,
  resolve_suggestion, undo_change, decide_placed, decide_found, decide_suggestion, range_between,
  empty_range,
}

-- The first part of a text ends where it was cut.
here : (i : ℕ) (T : Text) → i ≤ length T → i ≡ length (take i T)
here i T h = omega (arith, length-take i T)

length-three :
    (i : ℕ) (t T : Text) → i ≤ length T → length (take i T ++ (t ++ drop i T)) ≡ length T + length t
length-three i t T h = omega (
  arith,
  length-append (take i T) (t ++ drop i T),
  length-append t (drop i T),
  length-take i T,
  length-drop i T,
)

range_of :
    (i n : ℕ)
    → ltb 0 n ≡ true
    → range_between (some i) (some (i + n)) ≡ some (record { from = i; to = i + n })
range_of i n h =
    if-split (λ o. o ≡ some (record { from = i; to = i + n })) (leb (i + n) i)
      (λ e. ground (arith, e, h)) (λ _. refl)

nonempty : (i n : ℕ) → ltb 0 n ≡ true → ltb i (i + n) ≡ true
nonempty i n h = ground (arith, h)

module _ (Y : YText) (places : Positions Y) where
  open Y use {Carrier, to_string, delete, insert, to_string-delete, to_string-insert}

  -- A reject of a record whose place is there.
  reject_at :
      (y : Carrier) (records : List Suggestion) (s : Suggestion) (id : String) (range : TextRange)
      → get_record records id ≡ some s
      → resolve_kind Y places y s.kind ≡ some range
      → decide_suggestion Y places y records id reject
        ≡ (undo_change Y places y s.kind range, delete_record records s.id, true)
  unfolding decide_suggestion decide_found resolve_suggestion
  reject_at y records s id range h k =
      ap (decide_found Y places y records reject) h
      ∙ ap (decide_placed Y places y records s reject) k

  -- What was inserted is taken out again.
  to_string-undo_insertion :
      (y : Carrier) (i : ℕ) (t : Text)
      → i ≤ length (to_string y)
      → to_string (delete (insert y i t) i ((i + length t) - i)) ≡ to_string y
  to_string-undo_insertion y i t h =
      let T = to_string y in
      let n = length t in
      let e = to_string-insert y i t h in
      let l = here i T h in
      let S = take i T ++ (t ++ drop i T) in
      let long : length (to_string (insert y i t)) ≡ length T + n =
        ap length e ∙ length-three i t T h in
      to_string-delete (insert y i t) i ((i + n) - i) (omega (arith, long, h))
      ∙ ap (λ s. take i s ++ drop (i + ((i + n) - i)) s) e
      ∙ ap₂ (λ a b. a ++ b) (take-append i (take i T) (t ++ drop i T) l)
          (drop-append (i + ((i + n) - i)) n (take i T) (t ++ drop i T) (omega (arith, l))
            ∙ drop-append n 0 t (drop i T) (omega arith))
      ∙ take-append-drop i T

  -- What was deleted is put back.
  to_string-undo_deletion :
      (y : Carrier) (i n : ℕ)
      → i + n ≤ length (to_string y)
      → to_string (insert (delete y i n) i (slice i (i + n) (to_string y))) ≡ to_string y
  to_string-undo_deletion y i n h =
      let T = to_string y in
      let e = to_string-delete y i n h in
      let l = here i T (omega (arith, h)) in
      let rest = drop (i + n) T in
      let put = slice i (i + n) T in
      let near : i ≤ length (to_string (delete y i n)) =
        omega (arith, ap length e, length-append (take i T) rest, l) in
      to_string-insert (delete y i n) i put near
      ∙ ap (λ s. take i s ++ (put ++ drop i s)) e
      ∙ ap₂ (λ a b. a ++ (put ++ b)) (take-append i (take i T) rest l)
          (drop-append i 0 (take i T) rest (omega (arith, l)))
      ∙ split_three i ((i + n) - i) (i + n) T (omega arith)

  -- The text is as before, the record is gone, and the decision was made.
  abbrev pub IsUndone : Text → List Suggestion → String → Carrier × List Suggestion × Bool → Type 0
  IsUndone text records id r =
      (to_string r.0 ≡ text) × (r.1 ≡ delete_record records id) × (r.2 ≡ true)

  undo_inserted :
      (y : Carrier) (i : ℕ) (t : Text) (records : List Suggestion) (s : Suggestion)
      (start end : String)
      → i ≤ length (to_string y)
      → ltb 0 (length t) ≡ true
      → get_record records s.id ≡ some s
      → s.kind ≡ insertion start end
      → places.resolve (insert y i t) start ≡ some i
      → places.resolve (insert y i t) end ≡ some (i + length t)
      → IsUndone
          (to_string y)
          records
          s.id
          (decide_suggestion Y places (insert y i t) records s.id reject)
  undo_inserted y i t records s start end h pos_t has_s k r1 r2 =
      let range : TextRange = record { from = i; to = i + length t } in
      let here_now : resolve_kind Y places (insert y i t) s.kind ≡ some range =
        ap (resolve_kind Y places (insert y i t)) k
        ∙ ap₂ range_between r1 r2
        ∙ range_of i (length t) pos_t in
      subst (IsUndone (to_string y) records s.id)
        (sym (reject_at (insert y i t) records s s.id range has_s here_now))
        (
          ap (λ kind. to_string (undo_change Y places (insert y i t) kind range)) k
              ∙ ap
                  (λ b.
                    to_string
                      (if b then delete (insert y i t) i ((i + length t) - i) else insert y i t))
                  (nonempty i (length t) pos_t)
              ∙ to_string-undo_insertion y i t h,
          refl,
          refl,
        )

  undo_deleted :
      (y : Carrier) (i n : ℕ) (records : List Suggestion) (d : Suggestion) (at : String)
      → i + n ≤ length (to_string y)
      → get_record records d.id ≡ some d
      → d.kind ≡ deletion at (slice i (i + n) (to_string y))
      → places.resolve (delete y i n) at ≡ some i
      → IsUndone
          (to_string y)
          records
          d.id
          (decide_suggestion Y places (delete y i n) records d.id reject)
  undo_deleted y i n records d at h has_d k r =
      let range : TextRange = record { from = i; to = i } in
      let here_now : resolve_kind Y places (delete y i n) d.kind ≡ some range =
        ap (resolve_kind Y places (delete y i n)) k ∙ ap empty_range r in
      subst (IsUndone (to_string y) records d.id)
        (sym (reject_at (delete y i n) records d d.id range has_d here_now))
        (
          ap (λ kind. to_string (undo_change Y places (delete y i n) kind range)) k
              ∙ to_string-undo_deletion y i n h,
          refl,
          refl,
        )

  -- Rejecting an insertion takes its text out, and rejecting a deletion puts its text back, so that the
  -- text is what it was before the change, and the record is gone: for a record of the shared text after
  -- the change whose positions point at the inserted text, or at where the text was deleted.
  pub reject-undoes :
      (y : Carrier) (i n : ℕ) (t : Text) (records : List Suggestion) (s d : Suggestion)
      (start end at : String)
      → i ≤ length (to_string y)
      → ltb 0 (length t) ≡ true
      → get_record records s.id ≡ some s
      → s.kind ≡ insertion start end
      → places.resolve (insert y i t) start ≡ some i
      → places.resolve (insert y i t) end ≡ some (i + length t)
      → i + n ≤ length (to_string y)
      → get_record records d.id ≡ some d
      → d.kind ≡ deletion at (slice i (i + n) (to_string y))
      → places.resolve (delete y i n) at ≡ some i
      → IsUndone
          (to_string y)
          records
          s.id
          (decide_suggestion Y places (insert y i t) records s.id reject)
        × IsUndone
            (to_string y)
            records
            d.id
            (decide_suggestion Y places (delete y i n) records d.id reject)
  reject-undoes y i n t records s d start end at h pos_t has_s ks r1 r2 h' has_d kd r3 = (
    undo_inserted y i t records s start end h pos_t has_s ks r1 r2,
    undo_deleted y i n records d at h' has_d kd r3,
  )
