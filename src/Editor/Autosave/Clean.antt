-- ===== src/Editor/Autosave/Clean.antt =====
-- use-document-autosave.ts: what the status says, and the answer to a save of the document before.
use inkstave.Prelude.{
  ℕ, suc, zero, ◌≡◌, refl, sym, ◌∙◌, inl, inr, Bool, true, false, Option, none, some, List, [], ◌∷◌,
  Text, text_eq, text_eq_sound, if◌then◌else◌, if-elim, if-split, ltb, Bool-cases, arith, String,
  subst,
}
use inkstave.Editor.Autosave.{
  Autosave, Attempt, ConflictInfo, DocumentContent, SaveStatus, is_conflict, is_clean, is_waiting,
  edited_status, flush, flush_document, start_save, save_resolved, save_conflicted, save_failed,
  on_local_change, take_theirs, keep_ours, resolve_reload, resolve_keep_mine, max_retries,
}
use inkstave.Editor.Autosave.Run.{
  leave, seed, enter, switch_document, went_online, Answer, saved, conflicted, failed, answer_to,
  AutosaveEvent, edited, flushed, online, debounce_fired, retry_fired, put_off_fired, keep_mine,
  answered, reload, switched, fire, fire_put_off, autosave_step, run_autosave,
}
use inkstave.Editor.Autosave.Pending.{IsSaved}

-- The status says clean only of a text that the server has.
abbrev pub IsHonest : Autosave → Type 0
IsHonest h = is_clean h.state.status ≡ true → IsSaved h

abbrev Result : Type 0
Result = Autosave × List Attempt

start_save-IsHonest :
    (o : Option Attempt) (doc : String) (h : Autosave)
    → IsHonest h
    → IsHonest (start_save o doc h).0
unfolding start_save
start_save-IsHonest none doc h k = λ c. ground (arith, c)
start_save-IsHonest (some attempt) doc h k = k

flush_document-IsHonest :
    (o : Option String) (h : Autosave) → IsHonest h → IsHonest (flush_document o h).0
unfolding flush_document
flush_document-IsHonest none h k = k
flush_document-IsHonest (some doc) h k =
    if-elim (λ (r : Result). IsHonest r.0) (is_conflict h.state.status) k
      (if-split (λ (r : Result). IsHonest r.0) (text_eq h.state.local_text h.state.server_text)
        (λ e.
          if-elim IsHonest (is_clean h.state.status) k
            (λ _. text_eq_sound h.state.local_text h.state.server_text e))
        (λ _. start_save-IsHonest h.in_flight doc h k))

flush-IsHonest : (h : Autosave) → IsHonest h → IsHonest (flush h).0
unfolding flush
flush-IsHonest h k = flush_document-IsHonest h.state.document_id (record h { debounce = none }) k

fire-IsHonest :
    (o : Option ℕ) (h cleared : Autosave)
    → IsHonest h
    → IsHonest cleared
    → IsHonest (fire o h cleared).0
unfolding fire
fire-IsHonest none h cleared k c = k
fire-IsHonest (some delay) h cleared k c = flush-IsHonest cleared c

fire_put_off-IsHonest : (n : ℕ) (h : Autosave) → IsHonest h → IsHonest (fire_put_off n h).0
unfolding fire_put_off
fire_put_off-IsHonest zero h k = k
fire_put_off-IsHonest (suc n) h k = flush-IsHonest (record h { put_off = n }) k

save_resolved-IsHonest :
    (attempt : Attempt) (version now : ℕ) (h : Autosave)
    → IsHonest (save_resolved attempt version now h)
unfolding save_resolved
save_resolved-IsHonest attempt version now h = λ c.
    elim (Bool-cases (text_eq h.state.local_text attempt.text)) [
      | inl e ↦ text_eq_sound h.state.local_text attempt.text e
      | inr e ↦ ground (arith, rw e at c)
    ]

failed_status :
    (is_online : Bool)
    → is_clean (if is_online then SaveStatus.error else SaveStatus.offline) ≡ false
failed_status true = refl
failed_status false = refl

answer_to-IsHonest :
    (answer : Answer) (o : Option Attempt) (h : Autosave)
    → IsHonest h
    → IsHonest (answer_to answer o h)
unfolding answer_to save_conflicted save_failed
answer_to-IsHonest answer none h k = k
answer_to-IsHonest (saved version now) (some attempt) h k =
    save_resolved-IsHonest attempt version now h
answer_to-IsHonest (conflicted info) (some attempt) h k = λ c. ground (arith, c)
answer_to-IsHonest (failed is_online) (some attempt) h k =
    if-elim IsHonest (ltb max_retries (suc h.state.retry_count)) (λ c. ground (arith, c))
      (λ c. ground (arith, c, failed_status is_online))

clean_edit : (s : SaveStatus) (b : Bool) → is_clean (edited_status s b) ≡ true → b ≡ true
clean_edit s true e = refl
clean_edit SaveStatus.clean false e = e
clean_edit SaveStatus.dirty false e = e
clean_edit SaveStatus.saving false e = e
clean_edit SaveStatus.error false e = e
clean_edit SaveStatus.offline false e = e
clean_edit SaveStatus.conflict false e = e

on_local_change-IsHonest :
    (text : Text) (h : Autosave) → IsHonest h → IsHonest (on_local_change text h)
unfolding on_local_change
on_local_change-IsHonest text h k =
    let same = text_eq text h.state.server_text in
    if-elim IsHonest (text_eq text h.state.local_text) k
      (λ c. text_eq_sound text h.state.server_text (clean_edit h.state.status same c))

take_theirs-IsHonest :
    (o : Option ConflictInfo) (now : ℕ) (h : Autosave) → IsHonest h → IsHonest (take_theirs o now h)
unfolding take_theirs
take_theirs-IsHonest none now h k = k
take_theirs-IsHonest (some info) now h k = λ _. refl

keep_ours-IsHonest :
    (o : Option ConflictInfo) (h : Autosave) → IsHonest h → IsHonest (keep_ours o h)
unfolding keep_ours
keep_ours-IsHonest none h k = k
keep_ours-IsHonest (some info) h k = λ c. ground (arith, c)

enter-IsHonest :
    (loaded : Option DocumentContent) (h : Autosave) → IsHonest h → IsHonest (enter loaded h)
unfolding enter seed
enter-IsHonest none h k = k
enter-IsHonest (some loaded) h k = λ _. refl

autosave_step-IsHonest :
    (h : Autosave) (event : AutosaveEvent) → IsHonest h → IsHonest (autosave_step h event).0
unfolding autosave_step went_online resolve_reload resolve_keep_mine switch_document leave
autosave_step-IsHonest h (edited text) k = on_local_change-IsHonest text h k
autosave_step-IsHonest h flushed k = flush-IsHonest h k
autosave_step-IsHonest h online k =
    if-elim (λ (r : Result). IsHonest r.0) (is_waiting h.state.status) (flush-IsHonest h k) k
autosave_step-IsHonest h debounce_fired k =
    fire-IsHonest h.debounce h (record h { debounce = none }) k k
autosave_step-IsHonest h retry_fired k = fire-IsHonest h.retry h (record h { retry = none }) k k
autosave_step-IsHonest h put_off_fired k = fire_put_off-IsHonest h.put_off h k
autosave_step-IsHonest h (answered answer) k = answer_to-IsHonest answer h.in_flight h k
autosave_step-IsHonest h (reload now) k = take_theirs-IsHonest h.state.conflict_info now h k
autosave_step-IsHonest h keep_mine k = keep_ours-IsHonest h.state.conflict_info h k
autosave_step-IsHonest h (switched loaded) k =
    enter-IsHonest loaded (leave h).0 (if-elim (λ (r : Result). IsHonest r.0) h.is_seeded k k)

-- Whatever happens to a hook, in any order: where its status was clean only with the text that the server
-- is known to have, it still is.
pub run_autosave-IsHonest :
    (h : Autosave) (events : List AutosaveEvent) → IsHonest h → IsHonest (run_autosave h events).0
unfolding run_autosave
run_autosave-IsHonest h [] k = k
run_autosave-IsHonest h (event ∷ events) k =
    run_autosave-IsHonest (autosave_step h event).0 events (autosave_step-IsHonest h event k)

leave-in_flight : (h : Autosave) → (leave h).0.in_flight ≡ h.in_flight
unfolding leave
leave-in_flight h = if-elim (λ (r : Result). r.0.in_flight ≡ h.in_flight) h.is_seeded refl refl

-- The new document has the version and the server's text of the old one.
abbrev pub TakesSave : DocumentContent → Attempt → ℕ → Autosave → Type 0
TakesSave loaded attempt version h =
    (h.state.document_id ≡ some loaded.id)
    × (h.state.base_version ≡ version)
    × (h.state.server_text ≡ attempt.text)

-- The new document shows the other version of the old one.
abbrev pub TakesTheirs : DocumentContent → ConflictInfo → Autosave → Type 0
TakesTheirs loaded info h =
    (h.state.document_id ≡ some loaded.id)
    × (h.state.local_text ≡ info.current_content)
    × (h.state.display_text ≡ info.current_content)

-- When the document is switched while a save of the old one is in flight, its answer is taken for one to
-- the new document: a success gives the new document the version and the server's text of the old one, and
-- a conflict that is then resolved by a reload replaces the text of the new document by the old one's.
pub switched-answered :
    (h : Autosave) (attempt : Attempt) (loaded : DocumentContent) (info : ConflictInfo)
    (version now : ℕ)
    → h.in_flight ≡ some attempt
    → TakesSave loaded attempt version
        (run_autosave h (switched (some loaded) ∷ answered (saved version now) ∷ [])).0
      × TakesTheirs loaded info
          (run_autosave h (switched (some loaded) ∷ answered (conflicted info) ∷ reload now ∷ [])).0
unfolding run_autosave autosave_step switch_document enter seed answer_to resolve_reload take_theirs
    save_conflicted save_resolved
switched-answered h attempt loaded info version now e =
    let k = leave-in_flight h ∙ e in
    (
      subst
          (λ o.
            TakesSave loaded attempt version
              (answer_to (saved version now) o (seed loaded (leave h).0)))
          (sym k) (refl, refl, refl),
      subst
          (λ o.
            TakesTheirs loaded info
              (resolve_reload now (answer_to (conflicted info) o (seed loaded (leave h).0))))
          (sym k) (refl, refl, refl),
    )
