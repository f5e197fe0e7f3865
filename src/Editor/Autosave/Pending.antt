-- ===== src/Editor/Autosave/Pending.antt =====
-- use-autosave-flush.ts: an edit that the server does not have yet is waited for.
use inkstave.Prelude.{
  ℕ, suc, zero, ◌-◌, ◌<◌, min, ◌≡◌, refl, sym, ap, ◌∙◌, ◌⊎◌, inl, inr, Bool, true, false, Option,
  none, some, List, [], ◌∷◌, Text, text_eq, text_eq_sound, if-elim, if-split, ltb, get_elem?,
  Bool-cases, arith, String, subst,
}
use inkstave.Editor.Autosave.{
  Autosave, Attempt, DocumentContent, SaveStatus, is_conflict, is_clean, is_waiting, ConflictInfo,
  take_theirs, keep_ours, retry_backoff_ms, edited_status, schedule, attempt_of, flush,
  flush_document, start_save, save_resolved, save_conflicted, save_failed, retry_delay,
  on_local_change, resolve_reload, resolve_keep_mine, max_retries,
}
use inkstave.Editor.Autosave.Run.{
  empty_hook, leave, seed, enter, switch_document, went_online, Answer, saved, conflicted, failed,
  answer_to, AutosaveEvent, edited, flushed, online, debounce_fired, retry_fired, put_off_fired,
  keep_mine, answered, reload, switched, fire, fire_put_off, autosave_step, run_autosave,
}

-- The save carries the text as it is, or one that it has gone on from, and then its success starts the
-- timer of the next save at once.
abbrev pub Carries : Attempt → Autosave → Type 0
Carries attempt h =
    (h.state.local_text ≡ attempt.text)
    ⊎ ((version now : ℕ) → (save_resolved attempt version now h).debounce ≡ some 0)

-- Why an edit that is not saved is not forgotten: a save is in flight, of this text or of another one
-- with a further save to follow, a timer will start one, the user has to decide a conflict, or the save
-- was given up after the retries.
pub data Waits (h : Autosave) : Type 0 where
  in_flight :
      (attempt : Attempt) (e : h.in_flight ≡ some attempt) (carries : Carries attempt h) → Waits h
  debounced : (delay : ℕ) (e : h.debounce ≡ some delay) → Waits h
  retried : (delay : ℕ) (e : h.retry ≡ some delay) → Waits h
  put_off : (n : ℕ) (e : h.put_off ≡ suc n) → Waits h
  undecided : (e : is_conflict h.state.status ≡ true) → Waits h
  given_up : (e : max_retries < h.state.retry_count) → Waits h

abbrev pub IsSaved : Autosave → Type 0
IsSaved h = h.state.local_text ≡ h.state.server_text

-- While a document is open, what was typed is saved or waited for.
pub data IsKept (h : Autosave) : Type 0 where
  closed : (e : h.is_seeded ≡ false) → IsKept h
  is_saved : (e : IsSaved h) → IsKept h
  waits : (w : Waits h) → IsKept h

-- After a call of `flush` of a hook with a document.
abbrev pub HasDocument : Autosave → Type 0
HasDocument h = (h.is_seeded ≡ true) → (doc : String) × (h.state.document_id ≡ some doc)

attempt-Carries : (attempt : Attempt) (h : Autosave) → Carries attempt h
unfolding save_resolved
attempt-Carries attempt h = elim (Bool-cases (text_eq h.state.local_text attempt.text)) [
  | inl e ↦ inl (text_eq_sound h.state.local_text attempt.text e)
  | inr e ↦ inr (λ version now. rw e refl)
]

start_save-Waits :
    (o : Option Attempt) (doc : String) (h : Autosave)
    → h.in_flight ≡ o
    → IsKept (start_save o doc h).0
unfolding start_save
start_save-Waits none doc h e = waits (in_flight (attempt_of doc h.state) refl (inl refl))
start_save-Waits (some attempt) doc h e = waits (in_flight attempt e (attempt-Carries attempt h))

abbrev Result : Type 0
Result = Autosave × List Attempt

flush_document-IsKept : (doc : String) (h : Autosave) → IsKept (flush_document (some doc) h).0
unfolding flush_document
flush_document-IsKept doc h =
    if-split (λ (r : Result). IsKept r.0) (is_conflict h.state.status) (λ e. waits (undecided e))
      (λ _.
        if-split (λ (r : Result). IsKept r.0) (text_eq h.state.local_text h.state.server_text)
          (λ e.
            let same = text_eq_sound h.state.local_text h.state.server_text e in
            if-elim IsKept (is_clean h.state.status) (is_saved same) (is_saved same))
          (λ _. start_save-Waits h.in_flight doc h refl))

-- Only the switch of the document changes which document it is.
abbrev Stays : Autosave → Autosave → Type 0
Stays h h' = (h'.is_seeded ≡ h.is_seeded) × (h'.state.document_id ≡ h.state.document_id)

start_save-Stays :
    (o : Option Attempt) (doc : String) (h : Autosave) → Stays h (start_save o doc h).0
unfolding start_save
start_save-Stays none doc h = (refl, refl)
start_save-Stays (some attempt) doc h = (refl, refl)

flush_document-Stays : (o : Option String) (h : Autosave) → Stays h (flush_document o h).0
unfolding flush_document
flush_document-Stays none h = (refl, refl)
flush_document-Stays (some doc) h =
    if-elim (λ (r : Result). Stays h r.0) (is_conflict h.state.status) (refl, refl)
      (if-elim (λ (r : Result). Stays h r.0) (text_eq h.state.local_text h.state.server_text)
        (if-elim (Stays h) (is_clean h.state.status) (refl, refl) (refl, refl))
        (start_save-Stays h.in_flight doc h))

pub flush-Stays : (h : Autosave) → Stays h (flush h).0
unfolding flush
flush-Stays h = flush_document-Stays h.state.document_id (record h { debounce = none })

flush-IsKept : (h : Autosave) → HasDocument h → IsKept (flush h).0
unfolding flush
flush-IsKept h doc = elim (Bool-cases h.is_seeded) [
  | inr e ↦ closed ((flush-Stays h).0 ∙ e)
  | inl e ↦
      let (d, k) = doc e in
      subst (λ o. IsKept (flush_document o (record h { debounce = none })).0) (sym k)
        (flush_document-IsKept d (record h { debounce = none }))
]

min_three : (n : ℕ) → min (suc (suc (suc (suc n))) - 1) 3 ≡ 3
min_three n = omega arith

retry_delay-some : (n : ℕ) → (delay : ℕ) × (retry_delay (suc n) ≡ some delay)
unfolding retry_delay
retry_delay-some zero = (1000, refl)
retry_delay-some (suc zero) = (2000, refl)
retry_delay-some (suc (suc zero)) = (4000, refl)
retry_delay-some (suc (suc (suc n))) = (8000, ap (get_elem? retry_backoff_ms) (min_three n))

save_resolved-IsKept :
    (attempt : Attempt) (version now : ℕ) (h : Autosave)
    → IsKept (save_resolved attempt version now h)
unfolding save_resolved
save_resolved-IsKept attempt version now h =
    elim (Bool-cases (text_eq h.state.local_text attempt.text)) [
      | inl e ↦ is_saved (text_eq_sound h.state.local_text attempt.text e)
      | inr e ↦ waits (debounced 0 (rw e refl))
    ]

save_failed-IsKept : (is_online : Bool) (h : Autosave) → IsKept (save_failed is_online h)
unfolding save_failed
save_failed-IsKept is_online h =
    let (delay, e) = retry_delay-some h.state.retry_count in
    if-split IsKept (ltb max_retries (suc h.state.retry_count))
      (λ k. waits (given_up (ground (arith, k)))) (λ _. waits (retried delay e))

answer_to-IsKept :
    (answer : Answer) (o : Option Attempt) (h : Autosave) → IsKept h → IsKept (answer_to answer o h)
unfolding answer_to save_conflicted
answer_to-IsKept answer none h k = k
answer_to-IsKept (saved version now) (some attempt) h k = save_resolved-IsKept attempt version now h
answer_to-IsKept (conflicted info) (some attempt) h k = waits (undecided refl)
answer_to-IsKept (failed is_online) (some attempt) h k = save_failed-IsKept is_online h

edited_status-cases :
    (s : SaveStatus) (b : Bool)
    → (edited_status s b ≡ SaveStatus.conflict)
      ⊎ (b ≡ true)
      ⊎ (edited_status s b ≡ SaveStatus.dirty)
edited_status-cases s true = inr (inl refl)
edited_status-cases SaveStatus.conflict false = inl refl
edited_status-cases SaveStatus.clean false = inr (inr refl)
edited_status-cases SaveStatus.dirty false = inr (inr refl)
edited_status-cases SaveStatus.saving false = inr (inr refl)
edited_status-cases SaveStatus.error false = inr (inr refl)
edited_status-cases SaveStatus.offline false = inr (inr refl)

on_local_change-IsKept : (text : Text) (h : Autosave) → IsKept h → IsKept (on_local_change text h)
unfolding on_local_change
on_local_change-IsKept text h k =
    let same = text_eq text h.state.server_text in
    if-elim IsKept (text_eq text h.state.local_text) k
      (elim (edited_status-cases h.state.status same) [
        | inl e ↦ waits (undecided (ap is_conflict e))
        | inr (inl e) ↦ is_saved (text_eq_sound text h.state.server_text e)
        | inr (inr e) ↦ waits (debounced 1000 (ap (λ s. schedule s h.debounce) e))
      ])

take_theirs-IsKept :
    (o : Option ConflictInfo) (now : ℕ) (h : Autosave) → IsKept h → IsKept (take_theirs o now h)
unfolding take_theirs
take_theirs-IsKept none now h k = k
take_theirs-IsKept (some info) now h k = is_saved refl

keep_ours-IsKept : (o : Option ConflictInfo) (h : Autosave) → IsKept h → IsKept (keep_ours o h)
unfolding keep_ours
keep_ours-IsKept none h k = k
keep_ours-IsKept (some info) h k = waits (put_off h.put_off refl)

leave-closed : (h : Autosave) → (leave h).0.is_seeded ≡ false
unfolding leave
leave-closed h = if-split (λ (r : Result). r.0.is_seeded ≡ false) h.is_seeded (λ _. refl) (λ e. e)

fire-IsKept :
    (o : Option ℕ) (h cleared : Autosave)
    → HasDocument cleared
    → IsKept h
    → IsKept (fire o h cleared).0
unfolding fire
fire-IsKept none h cleared doc k = k
fire-IsKept (some delay) h cleared doc k = flush-IsKept cleared doc

fire_put_off-IsKept :
    (n : ℕ) (h : Autosave) → HasDocument h → IsKept h → IsKept (fire_put_off n h).0
unfolding fire_put_off
fire_put_off-IsKept zero h doc k = k
fire_put_off-IsKept (suc n) h doc k = flush-IsKept (record h { put_off = n }) doc

enter-IsKept :
    (loaded : Option DocumentContent) (h : Autosave) → h.is_seeded ≡ false → IsKept (enter loaded h)
unfolding enter seed
enter-IsKept none h e = closed e
enter-IsKept (some loaded) h e = is_saved refl

autosave_step-IsKept :
    (h : Autosave) (event : AutosaveEvent)
    → HasDocument h
    → IsKept h
    → IsKept (autosave_step h event).0
unfolding autosave_step went_online resolve_reload resolve_keep_mine switch_document
autosave_step-IsKept h (edited text) doc k = on_local_change-IsKept text h k
autosave_step-IsKept h flushed doc k = flush-IsKept h doc
autosave_step-IsKept h online doc k =
    if-elim (λ (r : Result). IsKept r.0) (is_waiting h.state.status) (flush-IsKept h doc) k
autosave_step-IsKept h debounce_fired doc k =
    fire-IsKept h.debounce h (record h { debounce = none }) doc k
autosave_step-IsKept h retry_fired doc k = fire-IsKept h.retry h (record h { retry = none }) doc k
autosave_step-IsKept h put_off_fired doc k = fire_put_off-IsKept h.put_off h doc k
autosave_step-IsKept h (answered answer) doc k = answer_to-IsKept answer h.in_flight h k
autosave_step-IsKept h (reload now) doc k = take_theirs-IsKept h.state.conflict_info now h k
autosave_step-IsKept h keep_mine doc k = keep_ours-IsKept h.state.conflict_info h k
autosave_step-IsKept h (switched loaded) doc k = enter-IsKept loaded (leave h).0 (leave-closed h)

-- A seeded hook has a document.
Stays-HasDocument : (h h' : Autosave) → Stays h h' → HasDocument h → HasDocument h'
Stays-HasDocument h h' (s, d) doc open_now = let (id, e) = doc (sym s ∙ open_now) in (id, d ∙ e)

answer_to-Stays :
    (answer : Answer) (o : Option Attempt) (h : Autosave) → Stays h (answer_to answer o h)
unfolding answer_to save_resolved save_conflicted save_failed
answer_to-Stays answer none h = (refl, refl)
answer_to-Stays (saved version now) (some attempt) h = (refl, refl)
answer_to-Stays (conflicted info) (some attempt) h = (refl, refl)
answer_to-Stays (failed is_online) (some attempt) h =
    if-elim (Stays h) (ltb max_retries (suc h.state.retry_count)) (refl, refl) (refl, refl)

fire-Stays : (o : Option ℕ) (h cleared : Autosave) → Stays h cleared → Stays h (fire o h cleared).0
unfolding fire
fire-Stays none h cleared s = (refl, refl)
fire-Stays (some delay) h cleared (a, b) = let (c, d) = flush-Stays cleared in (c ∙ a, d ∙ b)

fire_put_off-Stays : (n : ℕ) (h : Autosave) → Stays h (fire_put_off n h).0
unfolding fire_put_off
fire_put_off-Stays zero h = (refl, refl)
fire_put_off-Stays (suc n) h = flush-Stays (record h { put_off = n })

take_theirs-Stays :
    (o : Option ConflictInfo) (now : ℕ) (h : Autosave) → Stays h (take_theirs o now h)
unfolding take_theirs
take_theirs-Stays none now h = (refl, refl)
take_theirs-Stays (some info) now h = (refl, refl)

keep_ours-Stays : (o : Option ConflictInfo) (h : Autosave) → Stays h (keep_ours o h)
unfolding keep_ours
keep_ours-Stays none h = (refl, refl)
keep_ours-Stays (some info) h = (refl, refl)

enter-HasDocument :
    (loaded : Option DocumentContent) (h : Autosave)
    → h.is_seeded ≡ false
    → HasDocument (enter loaded h)
unfolding enter seed
enter-HasDocument none h e open_now = ground (arith, e, open_now)
enter-HasDocument (some loaded) h e open_now = (loaded.id, refl)

pub autosave_step-HasDocument :
    (h : Autosave) (event : AutosaveEvent) → HasDocument h → HasDocument (autosave_step h event).0
unfolding autosave_step went_online resolve_reload resolve_keep_mine switch_document on_local_change
autosave_step-HasDocument h (edited text) doc =
    if-elim HasDocument (text_eq text h.state.local_text) doc doc
autosave_step-HasDocument h flushed doc = Stays-HasDocument h (flush h).0 (flush-Stays h) doc
autosave_step-HasDocument h online doc =
    if-elim (λ (r : Result). HasDocument r.0) (is_waiting h.state.status)
      (Stays-HasDocument h (flush h).0 (flush-Stays h) doc) doc
autosave_step-HasDocument h debounce_fired doc =
    let cleared = record h { debounce = none } in
    Stays-HasDocument h (fire h.debounce h cleared).0 (fire-Stays h.debounce h cleared (refl, refl))
      doc
autosave_step-HasDocument h retry_fired doc =
    let cleared = record h { retry = none } in
    Stays-HasDocument h (fire h.retry h cleared).0 (fire-Stays h.retry h cleared (refl, refl)) doc
autosave_step-HasDocument h put_off_fired doc =
    Stays-HasDocument h (fire_put_off h.put_off h).0 (fire_put_off-Stays h.put_off h) doc
autosave_step-HasDocument h (answered answer) doc =
    Stays-HasDocument h (answer_to answer h.in_flight h) (answer_to-Stays answer h.in_flight h) doc
autosave_step-HasDocument h (reload now) doc =
    Stays-HasDocument h (take_theirs h.state.conflict_info now h)
      (take_theirs-Stays h.state.conflict_info now h) doc
autosave_step-HasDocument h keep_mine doc =
    Stays-HasDocument h (keep_ours h.state.conflict_info h)
      (keep_ours-Stays h.state.conflict_info h) doc
autosave_step-HasDocument h (switched loaded) doc =
    enter-HasDocument loaded (leave h).0 (leave-closed h)

-- What holds between the steps of a hook.
abbrev pub IsAlive : Autosave → Type 0
IsAlive h = HasDocument h × IsKept h

run_autosave-IsAlive :
    (h : Autosave) (events : List AutosaveEvent) → IsAlive h → IsAlive (run_autosave h events).0
unfolding run_autosave
run_autosave-IsAlive h [] k = k
run_autosave-IsAlive h (event ∷ events) (doc, k) =
    run_autosave-IsAlive (autosave_step h event).0 events
      (autosave_step-HasDocument h event doc, autosave_step-IsKept h event doc k)

pub empty-IsAlive : (events : List AutosaveEvent) → IsAlive (run_autosave empty_hook events).0
empty-IsAlive events =
    run_autosave-IsAlive empty_hook events (λ open_now. ground (arith, open_now), closed refl)

-- Whatever happens to a new hook, in any order: while a document is open, the text is the one that the
-- server is known to have, or a save that carries this text, for this document or for one left before,
-- is in flight, or one that carries another text, whose success starts the timer of the next save, or a
-- timer is set that will call for a save, or a conflict waits for the user, or the retries are used up.
pub run_autosave-IsKept : (events : List AutosaveEvent) → IsKept (run_autosave empty_hook events).0
run_autosave-IsKept events = (empty-IsAlive events).1
