-- ===== src/ProjectIndex/Includes/Unseen.antt =====
-- resolve-includes.ts: the documents that have not been visited.
use inkstave.Prelude.{
  ℕ, ◌+◌, ◌≤◌, ◌<◌, ◌≡◌, refl, sym, ◌∙◌, ◌⊎◌, inl, inr, Bool, true, false, some, List, [], ◌∷◌,
  String, Text, if◌then◌else◌, str_eq, eq_refl, text_eq, length, arith, subst, Bool-cases,
  Option-cases,
}
use inkstave.ProjectIndex.Includes.{IndexedDoc, is_seen, by_path}

-- How many documents have not been visited.
abbrev pub unseen : List IndexedDoc → List String → ℕ
unseen [] seen = 0
unseen (doc ∷ docs) seen = (if is_seen seen doc.id then 0 else 1) + unseen docs seen

-- A document of the project.
abbrev pub Member : IndexedDoc → List IndexedDoc → Type 0
Member doc [] = ⊥
Member doc (d ∷ docs) = (doc ≡ d) ⊎ Member doc docs

pub unseen-cons :
    (docs : List IndexedDoc) (id : String) (seen : List String)
    → unseen docs (id ∷ seen) ≤ unseen docs seen
unseen-cons [] id seen = omega arith
unseen-cons (d ∷ docs) id seen = elim (Bool-cases (str_eq id d.id)) [
  | inl e ↦ rw e (omega (arith, unseen-cons docs id seen))
  | inr e ↦ rw e (omega (arith, unseen-cons docs id seen))
]

-- Visiting a document of the project that is not seen leaves fewer.
pub unseen-visited :
    (docs : List IndexedDoc) (doc : IndexedDoc) (seen : List String)
    → Member doc docs
    → is_seen seen doc.id ≡ false
    → unseen docs (doc.id ∷ seen) < unseen docs seen
unseen-visited [] doc seen m e = absurd m
unseen-visited (d ∷ docs) doc seen (inl same) e =
    subst (λ x. unseen (x ∷ docs) (doc.id ∷ seen) < unseen (x ∷ docs) seen) same
      (rw (eq_refl doc.id, e) (omega (arith, unseen-cons docs doc.id seen)))
unseen-visited (d ∷ docs) doc seen (inr m) e = elim (Bool-cases (str_eq doc.id d.id)) [
  | inl k ↦ rw k (omega (arith, unseen-visited docs doc seen m e))
  | inr k ↦ rw k (omega (arith, unseen-visited docs doc seen m e))
]

pub unseen-le : (docs : List IndexedDoc) (seen : List String) → unseen docs seen ≤ length docs
unseen-le [] seen = omega arith
unseen-le (d ∷ docs) seen = elim (Bool-cases (is_seen seen d.id)) [
  | inl e ↦ rw e (omega (arith, unseen-le docs seen))
  | inr e ↦ rw e (omega (arith, unseen-le docs seen))
]

some-inj : {c d : IndexedDoc} → some c ≡ some d → c ≡ d
some-inj h = cc

pub if-agree {ℓ} :
    {A : Type ℓ} (b : Bool) (x y y' : A)
    → (b ≡ false → y ≡ y')
    → (if b then x else y) ≡ (if b then x else y')
if-agree true x y y' e = refl
if-agree false x y y' e = e refl

-- What is found by its path is a document of the project.
pub by_path-Member :
    (docs : List IndexedDoc) (path : Text) (doc : IndexedDoc)
    → by_path docs path ≡ some doc
    → Member doc docs
by_path-Member [] path doc e = ground (arith, e)
by_path-Member (d ∷ docs) path doc e = elim (Option-cases (by_path docs path)) [
  | inr (later, k) ↦ inr (by_path-Member docs path doc (k ∙ rw k at e))
  | inl k ↦ elim (Bool-cases (text_eq d.path path)) [
    | inl t ↦ inl (sym (some-inj (rw (k, t) at e)))
    | inr t ↦ ground (arith, rw (k, t) at e)
  ]
]
