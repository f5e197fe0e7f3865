-- ===== src/Editor/Autosave/Settled.antt =====
-- use-autosave-flush.ts: the saves come to an end once the typing does.
use inkstave.Prelude.{
  ℕ, ◌≤◌, ◌≡◌, refl, sym, ◌⊎◌, inl, inr, true, false, none, some, List, Text, Option-cases, arith,
  String,
}
use inkstave.Editor.Autosave.{Autosave, is_conflict, max_retries}
use inkstave.Editor.Autosave.Run.{empty_hook, AutosaveEvent, run_autosave}
use inkstave.Editor.Autosave.Pending.{
  IsKept, closed, is_saved, waits, Waits, in_flight, debounced, retried, put_off, undecided,
  given_up, empty-IsAlive,
}
use inkstave.Editor.Autosave.Rounds.{
  settle, IsDone, HasTimer, IsTimed, IsFlying, Sent, settle-IsTimed, settle-IsSending,
  settle-IsFlying, settle-IsDone,
}

-- The rounds from each kind of state.
one_more : (version now : ℕ) (t : Text) (h : Autosave) → Sent t h → IsDone t (settle version now h)
one_more version now t h (inl k) = settle-IsDone version now t h k
one_more version now t h (inr k) = settle-IsSending version now t h k

two_more :
    (v v' n n' : ℕ) (t : Text) (h : Autosave)
    → IsDone t h ⊎ IsTimed t h
    → IsDone t (settle v' n' (settle v n h))
two_more v v' n n' t h (inl k) = settle-IsDone v' n' t (settle v n h) (settle-IsDone v n t h k)
two_more v v' n n' t h (inr k) = one_more v' n' t (settle v n h) (settle-IsTimed v n t h k)

-- What a hook with an open document, without a conflict and with retries left, may be doing.
abbrev Doing : Text → Autosave → Type 0
Doing t h = IsFlying t h ⊎ IsDone t h ⊎ IsTimed t h

Waits-Doing :
    (h : Autosave) (doc : String)
    → h.state.document_id ≡ some doc
    → is_conflict h.state.status ≡ false
    → h.state.retry_count ≤ max_retries
    → h.in_flight ≡ none
    → Waits h
    → HasTimer h
Waits-Doing h doc d c r f (in_flight attempt e carries) = ground (arith, e, f)
Waits-Doing h doc d c r f (debounced delay e) = inl (delay, e)
Waits-Doing h doc d c r f (retried delay e) = inr (inl (delay, e))
Waits-Doing h doc d c r f (put_off n e) = inr (inr (n, e))
Waits-Doing h doc d c r f (undecided e) = ground (arith, c, e)
Waits-Doing h doc d c r f (given_up e) = ground (arith, e, r)

kept-Doing :
    (h : Autosave) (doc : String)
    → h.state.document_id ≡ some doc
    → h.is_seeded ≡ true
    → is_conflict h.state.status ≡ false
    → h.state.retry_count ≤ max_retries
    → IsKept h
    → Doing h.state.local_text h
kept-Doing h doc d s c r k = elim (Option-cases h.in_flight) [
  | inr (attempt, e) ↦ inl ((attempt, e), (refl, (doc, d)))
  | inl f ↦ elim k [
    | closed e ↦ ground (arith, e, s)
    | is_saved e ↦ inr (inl (f, refl, sym e))
    | waits w ↦ inr (inr (f, (refl, (doc, d)), Waits-Doing h doc d c r f w, c))
  ]
]

Doing-settles :
    (v v' v'' n n' n'' : ℕ) (t : Text) (h : Autosave)
    → Doing t h
    → IsDone t (settle v'' n'' (settle v' n' (settle v n h)))
Doing-settles v v' v'' n n' n'' t h (inl k) =
    two_more v' v'' n' n'' t (settle v n h) (settle-IsFlying v n t h k)
Doing-settles v v' v'' n n' n'' t h (inr k) =
    settle-IsDone v'' n'' t (settle v' n' (settle v n h)) (two_more v v' n n' t h k)

-- Whatever has happened to a hook before: if a document is open, no conflict waits for the user and the
-- retries are not used up, then three steps later, in which the server accepts what is sent and the timers
-- that are set fire, the text that was typed is what the server is known to have.
pub run_autosave-settles :
    (events : List AutosaveEvent) (v v' v'' n n' n'' : ℕ)
    → let h = (run_autosave empty_hook events).0 in
      h.is_seeded ≡ true
      → is_conflict h.state.status ≡ false
      → h.state.retry_count ≤ max_retries
      → IsDone h.state.local_text (settle v'' n'' (settle v' n' (settle v n h)))
run_autosave-settles events v v' v'' n n' n'' s c r =
    let h = (run_autosave empty_hook events).0 in
    let (doc, k) = empty-IsAlive events in
    let (id, d) = doc s in
    Doing-settles v v' v'' n n' n'' h.state.local_text h (kept-Doing h id d s c r k)
