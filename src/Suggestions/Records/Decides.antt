-- ===== src/Suggestions/Records/Decides.antt =====
-- review.ts, `decideAllSuggestions`.
use inkstave.Prelude.{
  ℕ, suc, ◌≡◌, refl, sym, ap, ◌∙◌, Bool, true, false, ◌||◌, Option, none, some, List, [], ◌∷◌, map,
  String, if◌then◌else◌, str_eq, eq_refl, eq_iff, All, any, Option-cases, Bool-cases, inl, inr,
  arith, subst,
}
use inkstave.Crdt.{YText}
use inkstave.Suggestions.Planner.{TextRange}
use inkstave.Suggestions.Records.{
  Suggestion, accept, get_record, delete_record, Positions, resolve_suggestion, decide_placed,
  decide_found, decide_suggestion, decide_ids, decide_all_suggestions,
}

-- The records whose ids are not in a list.
abbrev without : List String → List Suggestion → List Suggestion
without [] records = records
without (id ∷ ids) records = without ids (delete_record records id)

delete_missing :
    (records : List Suggestion) (id : String)
    → get_record records id ≡ none
    → delete_record records id ≡ records
delete_missing [] id e = refl
delete_missing (s ∷ records) id e = elim (Bool-cases (str_eq s.id id)) [
  | inl k ↦ ground (arith, rw k at e)
  | inr k ↦ rw k (ap (λ l. s ∷ l) (delete_missing records id (rw k at e)))
]

some-inj : {s t : Suggestion} → some s ≡ some t → s ≡ t
some-inj h = cc

or_right : (a b : Bool) → b ≡ true → (a || b) ≡ true
or_right true b e = refl
or_right false b e = e

get_record-id :
    (records : List Suggestion) (id : String) (s : Suggestion)
    → get_record records id ≡ some s
    → s.id ≡ id
get_record-id [] id s e = ground (arith, e)
get_record-id (r ∷ records) id s e = elim (Bool-cases (str_eq r.id id)) [
  | inl k ↦ sym (ap (λ t. t.id) (some-inj (rw k at e))) ∙ (eq_iff r.id id).0 k
  | inr k ↦ get_record-id records id s (rw k at e)
]

-- Every record has one of the ids.
abbrev AreNamed : List String → List Suggestion → Type 0
AreNamed ids records = All (λ (s : Suggestion). any (λ id. str_eq s.id id) ids ≡ true) records

AreNamed-delete :
    (id : String) (ids : List String) (records : List Suggestion)
    → AreNamed (id ∷ ids) records
    → AreNamed ids (delete_record records id)
AreNamed-delete id ids [] k = k
AreNamed-delete id ids (s ∷ records) (k, rest) = elim (Bool-cases (str_eq s.id id)) [
  | inl e ↦ rw e (AreNamed-delete id ids records rest)
  | inr e ↦ rw e (rw e at k, AreNamed-delete id ids records rest)
]

without_all :
    (ids : List String) (records : List Suggestion)
    → AreNamed ids records
    → without ids records ≡ []
without_all [] [] k = refl
without_all [] (s ∷ records) (k, rest) = ground (arith, k)
without_all (id ∷ ids) records k =
    without_all ids (delete_record records id) (AreNamed-delete id ids records k)

AreNamed-more :
    (id : String) (ids : List String) (records : List Suggestion)
    → AreNamed ids records
    → AreNamed (id ∷ ids) records
AreNamed-more id ids [] k = k
AreNamed-more id ids (s ∷ records) (k, rest) = (
  or_right (str_eq s.id id) (any (λ other. str_eq s.id other) ids) k,
  AreNamed-more id ids records rest,
)

all_named : (records : List Suggestion) → AreNamed (map (λ (s : Suggestion). s.id) records) records
all_named [] = tt
all_named (s ∷ records) = (
  rw (eq_refl s.id) refl,
  AreNamed-more s.id (map (λ (r : Suggestion). r.id) records) records (all_named records),
)

module _ (Y : YText) (places : Positions Y) where
  open Y use {Carrier}

  decide_placed-accept :
      (y : Carrier) (records : List Suggestion) (s : Suggestion) (range : Option TextRange)
      → decide_placed Y places y records s accept range ≡ (y, delete_record records s.id, true)
  decide_placed-accept y records s none = refl
  decide_placed-accept y records s (some range) = refl

  -- Accepting one suggestion, whether it is there or not.
  accept_one :
      (y : Carrier) (records : List Suggestion) (id : String)
      → let r = decide_suggestion Y places y records id accept in
        (r.0 ≡ y) × (r.1 ≡ delete_record records id)
  unfolding decide_suggestion decide_found
  accept_one y records id = elim (Option-cases (get_record records id)) [
    | inl e ↦
        subst
          (λ o.
            let r = decide_found Y places y records accept o in
            (r.0 ≡ y) × (r.1 ≡ delete_record records id))
          (sym e) (refl, sym (delete_missing records id e))
    | inr (s, e) ↦
        let at = resolve_suggestion Y places y s in
        let k = decide_placed-accept y records s at in
        subst
          (λ o.
            let r = decide_found Y places y records accept o in
            (r.0 ≡ y) × (r.1 ≡ delete_record records id))
          (sym e)
          (
            ap (λ r. r.0) k,
            ap (λ r. r.1) k ∙ ap (delete_record records) (get_record-id records id s e),
          )
  ]

  decide_ids-accept :
      (ids : List String) (y : Carrier) (records : List Suggestion) (decided : ℕ)
      → let r = decide_ids Y places ids y records accept decided in
        (r.0 ≡ y) × (r.1 ≡ without ids records)
  unfolding decide_ids
  decide_ids-accept [] y records decided = (refl, refl)
  decide_ids-accept (id ∷ ids) y records decided =
      let r = decide_suggestion Y places y records id accept in
      let (text, rest) = accept_one y records id in
      let (texts, rests) = decide_ids-accept ids r.0 r.1 (if r.2 then suc decided else decided) in
      (texts ∙ text, rests ∙ ap (without ids) rest)

  -- Accepting all suggestions leaves the text as it is and no record behind, whether or not their places
  -- are still there.
  pub decide_all_suggestions-accept :
      (y : Carrier) (records : List Suggestion)
      → let r = decide_all_suggestions Y places y records accept in (r.0 ≡ y) × (r.1 ≡ [])
  unfolding decide_all_suggestions
  decide_all_suggestions-accept y records =
      let ids = map (λ (s : Suggestion). s.id) records in
      let (text, rest) = decide_ids-accept ids y records 0 in
      (text, rest ∙ without_all ids records (all_named records))
