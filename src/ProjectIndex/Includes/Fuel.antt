-- ===== src/ProjectIndex/Includes/Fuel.antt =====
-- resolve-includes.ts: the visits come to an end, also where files include each other.
use inkstave.Prelude.{
  ℕ, zero, suc, ◌+◌, ◌≤◌, ◌<◌, ◌≡◌, refl, ap, ◌∙◌, inl, inr, Option, none, some, List, [], ◌∷◌,
  Text, if◌then◌else◌, if-split, length, arith, Option-cases,
}
use inkstave.ProjectIndex.Includes.{
  StructureItem, IndexedDoc, Visited, is_seen, place_item, by_path, first_doc, candidate_paths,
  target_of, follow, visit_items, visit, or_empty,
}
use inkstave.ProjectIndex.Includes.Unseen.{
  unseen, Member, unseen-cons, unseen-visited, unseen-le, if-agree, by_path-Member,
}

module _ (trim : Text → Text) (docs : List IndexedDoc) where
  first_doc-Member :
      (paths : List Text) (doc : IndexedDoc)
      → first_doc trim docs paths ≡ some doc
      → Member doc docs
  first_doc-Member [] doc e = ground (arith, e)
  first_doc-Member (path ∷ paths) doc e = elim (Option-cases (by_path docs path)) [
    | inr (found, k) ↦ by_path-Member docs path doc (k ∙ rw k at e)
    | inl k ↦ first_doc-Member paths doc (rw k at e)
  ]

  -- A visit never forgets a document.
  abbrev Grows : (IndexedDoc → Visited → Visited) → Type 0
  Grows go = (d : IndexedDoc) (v : Visited) → unseen docs (go d v).seen ≤ unseen docs v.seen

  follow-Grows :
      (go : IndexedDoc → Visited → Visited) (o : Option IndexedDoc) (v : Visited)
      → Grows go
      → unseen docs (follow trim docs go o v).seen ≤ unseen docs v.seen
  follow-Grows go none v g = omega arith
  follow-Grows go (some d) v g = g d v

  after_item : (IndexedDoc → Visited → Visited) → IndexedDoc → StructureItem → Visited → Visited
  after_item go doc item v =
      if item.is_include
      then follow trim docs go (target_of trim docs item) v
      else place_item doc item v

  after_item-Grows :
      (go : IndexedDoc → Visited → Visited) (doc : IndexedDoc) (item : StructureItem) (v : Visited)
      → Grows go
      → unseen docs (after_item go doc item v).seen ≤ unseen docs v.seen
  unfolding after_item
  after_item-Grows go doc item v g =
      if-split (λ (u : Visited). unseen docs u.seen ≤ unseen docs v.seen) item.is_include
        (λ _. follow-Grows go (target_of trim docs item) v g) (λ _. omega arith)

  visit_items-Grows :
      (go : IndexedDoc → Visited → Visited) (doc : IndexedDoc) (items : List StructureItem)
      (v : Visited)
      → Grows go
      → unseen docs (visit_items trim docs go doc items v).seen ≤ unseen docs v.seen
  unfolding after_item
  visit_items-Grows go doc [] v g = omega arith
  visit_items-Grows go doc (item ∷ items) v g = omega (
    arith,
    visit_items-Grows go doc items (after_item go doc item v) g,
    after_item-Grows go doc item v g,
  )

  visit-Grows : (fuel : ℕ) → Grows (visit trim docs fuel)
  unfolding visit
  visit-Grows zero d v = omega arith
  visit-Grows (suc fuel) d v =
      if-split (λ (u : Visited). unseen docs u.seen ≤ unseen docs v.seen) (is_seen v.seen d.id)
        (λ _. omega arith)
        (λ _. omega (
          arith,
          visit_items-Grows (visit trim docs fuel) d d.items (record v { seen = d.id ∷ v.seen })
              (visit-Grows fuel),
          unseen-cons docs d.id v.seen,
        ))

  -- Two ways to visit agree while fewer than `n` documents are unseen.
  abbrev Agree : ℕ → (IndexedDoc → Visited → Visited) → (IndexedDoc → Visited → Visited) → Type 0
  Agree n go go' =
      (d : IndexedDoc) (v : Visited) → Member d docs → unseen docs v.seen < n → go d v ≡ go' d v

  follow-Agree :
      (n : ℕ) (go go' : IndexedDoc → Visited → Visited) (o : Option IndexedDoc) (v : Visited)
      → Agree n go go'
      → ((d : IndexedDoc) → o ≡ some d → Member d docs)
      → unseen docs v.seen < n
      → follow trim docs go o v ≡ follow trim docs go' o v
  follow-Agree n go go' none v a m h = refl
  follow-Agree n go go' (some d) v a m h = a d v (m d refl) h

  after_item-Agree :
      (n : ℕ) (go go' : IndexedDoc → Visited → Visited) (doc : IndexedDoc) (item : StructureItem)
      (v : Visited)
      → Agree n go go'
      → unseen docs v.seen < n
      → after_item go doc item v ≡ after_item go' doc item v
  unfolding after_item
  after_item-Agree n go go' doc item v a h =
      let target = target_of trim docs item in
      ap (λ u. if item.is_include then u else place_item doc item v)
        (follow-Agree n go go' target v a
          (λ d e. first_doc-Member (candidate_paths trim docs (or_empty item.target)) d e) h)

  visit_items-Agree :
      (n : ℕ) (go go' : IndexedDoc → Visited → Visited) (doc : IndexedDoc)
      (items : List StructureItem) (v : Visited)
      → Agree n go go'
      → Grows go
      → unseen docs v.seen < n
      → visit_items trim docs go doc items v ≡ visit_items trim docs go' doc items v
  unfolding after_item
  visit_items-Agree n go go' doc [] v a g h = refl
  visit_items-Agree n go go' doc (item ∷ items) v a g h =
      let u = after_item go doc item v in
      visit_items-Agree n go go' doc items u a g
        (omega (arith, after_item-Grows go doc item v g, h))
      ∙ ap (visit_items trim docs go' doc items) (after_item-Agree n go go' doc item v a h)

  visit-stable : (n : ℕ) → Agree n (visit trim docs n) (visit trim docs (suc n))
  unfolding visit
  visit-stable zero d v m h = ground (arith, h)
  visit-stable (suc n) d v m h =
      if-agree (is_seen v.seen d.id) v
        (visit_items trim docs (visit trim docs n) d d.items (record v { seen = d.id ∷ v.seen }))
        (visit_items trim docs (visit trim docs (suc n)) d d.items
          (record v { seen = d.id ∷ v.seen }))
        (λ e.
          visit_items-Agree n (visit trim docs n) (visit trim docs (suc n)) d d.items
            (record v { seen = d.id ∷ v.seen }) (visit-stable n) (visit-Grows n)
            (omega (arith, unseen-visited docs d v.seen m e, h)))

  -- More fuel than there are documents changes nothing, also where documents include each other: the
  -- visits of any document of the project have come to an end.
  pub visit-fuel :
      (k : ℕ) (doc : IndexedDoc) (v : Visited)
      → Member doc docs
      → visit trim docs (suc (length docs)) doc v ≡ visit trim docs (suc (length docs) + k) doc v
  visit-fuel zero doc v m = ap (λ n. visit trim docs n doc v) (omega arith)
  visit-fuel (suc k) doc v m =
      visit-fuel k doc v m
      ∙ visit-stable (suc (length docs) + k) doc v m (omega (arith, unseen-le docs v.seen))
      ∙ ap (λ n. visit trim docs n doc v) (omega arith)
