-- ===== src/Agent/Voice/Covers.antt =====
-- session.ts: what the calls of a session come to.
use inkstave.Prelude.{
  ℕ, suc, ◌+◌, ◌≡◌, refl, ◌∙◌, inl, inr, Bool, true, false, ◌||◌, if-elim, subst, List, [], ◌∷◌,
  ◌++◌, any, append-nil, append_assoc, Bool-cases, arith,
}
use inkstave.Agent.Voice.{
  SessionState, SessionCall, on_interim, on_final, on_error, on_end, stop_recognizer,
  abort_recognizer, arm,
}

abbrev pub is_final : SessionCall → Bool
is_final (on_final text) = true
is_final _ = false

abbrev pub is_abort : SessionCall → Bool
is_abort abort_recognizer = true
is_abort _ = false

-- How often the end is announced.
abbrev pub ends : List SessionCall → ℕ
ends [] = 0
ends (on_end heard ∷ calls) = suc (ends calls)
ends (on_interim text ∷ calls) = ends calls
ends (on_final text ∷ calls) = ends calls
ends (on_error text ∷ calls) = ends calls
ends (stop_recognizer ∷ calls) = ends calls
ends (abort_recognizer ∷ calls) = ends calls

pub ends-append : (xs ys : List SessionCall) → ends (xs ++ ys) ≡ ends xs + ends ys
ends-append [] ys = omega arith
ends-append (on_end heard ∷ xs) ys = omega (arith, ends-append xs ys)
ends-append (on_interim text ∷ xs) ys = ends-append xs ys
ends-append (on_final text ∷ xs) ys = ends-append xs ys
ends-append (on_error text ∷ xs) ys = ends-append xs ys
ends-append (stop_recognizer ∷ xs) ys = ends-append xs ys
ends-append (abort_recognizer ∷ xs) ys = ends-append xs ys

any-append {ℓ} :
    {A : Type ℓ} (p : A → Bool) (xs ys : List A) → any p (xs ++ ys) ≡ (any p xs || any p ys)
any-append p [] ys = refl
any-append p (x ∷ xs) ys = elim (Bool-cases (p x)) [
  | inl e ↦ rw e refl
  | inr e ↦ rw e (any-append p xs ys)
]

or_assoc : (a b c : Bool) → ((a || b) || c) ≡ (a || (b || c))
or_assoc true b c = refl
or_assoc false b c = refl

-- The calls announce the end last, with what was heard before it.
abbrev pub Announces : Bool → List SessionCall → Type 0
Announces heard calls =
    (before : List SessionCall) × (calls ≡ before ++ on_end (heard || any is_final before) ∷ [])
    × (ends before ≡ 0)

-- What the calls of a live session come to: it goes on, it was dropped, or it has ended.
pub data Covers (s : SessionState) (calls : List SessionCall) (s' : SessionState) : Type 0 where
  goes_on :
      (on : s'.live ≡ true) (quiet : ends calls ≡ 0)
      (hears : s'.heard ≡ (s.heard || any is_final calls)) (kept : any is_abort calls ≡ false)
      → Covers s calls s'
  dropped :
      (off : s'.live ≡ false) (quiet : ends calls ≡ 0) (gone : any is_abort calls ≡ true)
      → Covers s calls s'
  over :
      (off : s'.live ≡ false) (last : Announces s.heard calls) (kept : any is_abort calls ≡ false)
      → Covers s calls s'

-- What a session does that is no longer live: nothing.
abbrev pub IsDead : SessionState → List SessionCall → SessionState → Type 0
IsDead s calls s' = (calls ≡ []) × (s'.live ≡ false)

abbrev pub IsRun : SessionState → List SessionCall → SessionState → Type 0
IsRun s calls s' = (s.live ≡ true → Covers s calls s') × (s.live ≡ false → IsDead s calls s')

Announces-after :
    (h : Bool) (xs ys : List SessionCall)
    → ends xs ≡ 0
    → Announces (h || any is_final xs) ys
    → Announces h (xs ++ ys)
Announces-after h xs ys quiet (before, e, k) = (
  xs ++ before,
  rw
      (
        e,
        any-append is_final xs before,
        append_assoc xs before (on_end (h || (any is_final xs || any is_final before)) ∷ []),
        or_assoc h (any is_final xs) (any is_final before),
      )
      refl,
  omega (arith, ends-append xs before, quiet, k),
)

pub Covers-after :
    (s s1 s2 : SessionState) (xs ys : List SessionCall)
    → s1.live ≡ true
    → ends xs ≡ 0
    → s1.heard ≡ (s.heard || any is_final xs)
    → any is_abort xs ≡ false
    → Covers s1 ys s2
    → Covers s (xs ++ ys) s2
Covers-after s s1 s2 xs ys on quiet hears kept (goes_on on' quiet' hears' kept') =
    goes_on on' (omega (arith, ends-append xs ys))
      (hears'
        ∙ rw (hears, any-append is_final xs ys)
            (or_assoc s.heard (any is_final xs) (any is_final ys)))
      (rw (any-append is_abort xs ys, kept) kept')
Covers-after s s1 s2 xs ys on quiet hears kept (dropped off quiet' gone) =
    dropped off (omega (arith, ends-append xs ys)) (rw (any-append is_abort xs ys, kept) gone)
Covers-after s s1 s2 xs ys on quiet hears kept (over off last kept') =
    over off (Announces-after s.heard xs ys quiet (subst (λ h. Announces h ys) hears last))
      (rw (any-append is_abort xs ys, kept) kept')

pub IsRun-then :
    (s s1 s2 : SessionState) (xs ys : List SessionCall)
    → IsRun s xs s1
    → IsRun s1 ys s2
    → IsRun s (xs ++ ys) s2
IsRun-then s s1 s2 xs ys (one, one_dead) (two, two_dead) = (
  λ live. elim (one live) [
    | goes_on on quiet hears kept ↦ Covers-after s s1 s2 xs ys on quiet hears kept (two on)
    | dropped off quiet gone ↦
        let (e, k) = two_dead off in rw (e, append-nil xs) (dropped k quiet gone)
    | over off last kept ↦ let (e, k) = two_dead off in rw (e, append-nil xs) (over k last kept)
  ],
  λ dead. let (e, k) = one_dead dead in let (e', k') = two_dead k in (rw (e, e') refl, k'),
)

pub arm-live : (s : SessionState) → (arm s).live ≡ s.live
unfolding arm
arm-live s = if-elim (λ (t : SessionState). t.live ≡ s.live) s.stopping refl refl

pub arm-heard : (s : SessionState) → (arm s).heard ≡ s.heard
unfolding arm
arm-heard s = if-elim (λ (t : SessionState). t.heard ≡ s.heard) s.stopping refl refl
