-- ===== src/Editor/Autosave/Rounds.antt =====
-- use-autosave-flush.ts: one round while nobody types.
use inkstave.Prelude.{
  ℕ, suc, zero, ◌≡◌, refl, sym, ◌∙◌, ◌⊎◌, inl, inr, false, Option, none, some, List, Text, text_eq,
  text_eq_sound, text_eq_refl, if-elim, if-split, Bool-cases, arith, String, subst,
}
use inkstave.Editor.Autosave.{
  Autosave, Attempt, is_conflict, is_clean, attempt_of, flush, flush_document, start_save,
  save_resolved,
}
use inkstave.Editor.Autosave.Run.{
  saved, answer_to, AutosaveEvent, debounce_fired, retry_fired, put_off_fired, answered, fire,
  fire_put_off, autosave_step,
}

-- What happens next while nobody types: the answer to the save in flight, which the server accepts, or
-- else a timer that is set.
abbrev pub next_event : ℕ → ℕ → Option Attempt → Option ℕ → Option ℕ → AutosaveEvent
next_event version now (some attempt) debounce retry = answered (saved version now)
next_event version now none (some delay) retry = debounce_fired
next_event version now none none (some delay) = retry_fired
next_event version now none none none = put_off_fired

abbrev pub settle : ℕ → ℕ → Autosave → Autosave
settle version now h = (autosave_step h (next_event version now h.in_flight h.debounce h.retry)).0

-- The text is saved, and nothing is in flight.
abbrev pub IsDone : Text → Autosave → Type 0
IsDone t h = (h.in_flight ≡ none) × (h.state.local_text ≡ t) × (h.state.server_text ≡ t)

-- The text is in flight.
abbrev IsSending : Text → Autosave → Type 0
IsSending t h =
    (attempt : Attempt) × (h.in_flight ≡ some attempt)
    × (attempt.text ≡ t)
    × (h.state.local_text ≡ t)

abbrev pub HasTimer : Autosave → Type 0
HasTimer h =
    ((delay : ℕ) × (h.debounce ≡ some delay))
    ⊎ ((delay : ℕ) × (h.retry ≡ some delay))
    ⊎ ((n : ℕ) × (h.put_off ≡ suc n))

abbrev IsOpen : Text → Autosave → Type 0
IsOpen t h = (h.state.local_text ≡ t) × ((doc : String) × (h.state.document_id ≡ some doc))

-- A timer will send the text.
abbrev pub IsTimed : Text → Autosave → Type 0
IsTimed t h = (h.in_flight ≡ none) × IsOpen t h × HasTimer h × (is_conflict h.state.status ≡ false)

-- Some text is in flight.
abbrev pub IsFlying : Text → Autosave → Type 0
IsFlying t h = ((attempt : Attempt) × (h.in_flight ≡ some attempt)) × IsOpen t h

abbrev Result : Type 0
Result = Autosave × List Attempt

start_save-IsSending :
    (t : Text) (o : Option Attempt) (doc : String) (h : Autosave)
    → o ≡ none
    → h.state.local_text ≡ t
    → IsSending t (start_save o doc h).0
unfolding start_save
start_save-IsSending t none doc h e l = (attempt_of doc h.state, refl, l, l)
start_save-IsSending t (some attempt) doc h e l = ground (arith, e)

flush_document-sends :
    (t : Text) (doc : String) (h : Autosave)
    → h.in_flight ≡ none
    → h.state.local_text ≡ t
    → is_conflict h.state.status ≡ false
    → let h' = (flush_document (some doc) h).0 in IsDone t h' ⊎ IsSending t h'
unfolding flush_document
flush_document-sends t doc h f l c =
    if-split (λ (r : Result). IsDone t r.0 ⊎ IsSending t r.0) (is_conflict h.state.status)
      (λ k. ground (arith, k, c))
      (λ _.
        if-split (λ (r : Result). IsDone t r.0 ⊎ IsSending t r.0)
          (text_eq h.state.local_text h.state.server_text)
          (λ e.
            let same = sym (text_eq_sound h.state.local_text h.state.server_text e) ∙ l in
            inl (if-elim (IsDone t) (is_clean h.state.status) (f, l, same) (f, l, same)))
          (λ _. inr (start_save-IsSending t h.in_flight doc h f l)))

flush-sends :
    (t : Text) (h : Autosave)
    → h.in_flight ≡ none
    → IsOpen t h
    → is_conflict h.state.status ≡ false
    → let h' = (flush h).0 in IsDone t h' ⊎ IsSending t h'
unfolding flush
flush-sends t h f (l, (doc, d)) c =
    subst
      (λ o.
        let h' = (flush_document o (record h { debounce = none })).0 in
        IsDone t h' ⊎ IsSending t h')
      (sym d) (flush_document-sends t doc (record h { debounce = none }) f l c)

abbrev pub Sent : Text → Autosave → Type 0
Sent t h = IsDone t h ⊎ IsSending t h

put_off-timer :
    (h : Autosave) → HasTimer h → h.debounce ≡ none → h.retry ≡ none → (n : ℕ) × (h.put_off ≡ suc n)
put_off-timer h (inl (delay, e)) d r = ground (arith, e, d)
put_off-timer h (inr (inl (delay, e))) d r = ground (arith, e, r)
put_off-timer h (inr (inr k)) d r = k

-- A timer sends.
timer-sends :
    (version now : ℕ) (t : Text) (h : Autosave) (a : Option Attempt) (d r : Option ℕ)
    → h.in_flight ≡ a
    → h.debounce ≡ d
    → h.retry ≡ r
    → IsTimed t h
    → Sent t (autosave_step h (next_event version now a d r)).0
unfolding autosave_step fire fire_put_off
timer-sends version now t h (some attempt) d r e k l (f, _, _, _) = ground (arith, e, f)
timer-sends version now t h none (some delay) r e k l (f, o, timer, c) =
    subst (λ x. Sent t (fire x h (record h { debounce = none })).0) (sym k)
      (flush-sends t (record h { debounce = none }) f o c)
timer-sends version now t h none none (some delay) e k l (f, o, timer, c) =
    subst (λ x. Sent t (fire x h (record h { retry = none })).0) (sym l)
      (flush-sends t (record h { retry = none }) f o c)
timer-sends version now t h none none none e k l (f, o, timer, c) =
    let (n, p) = put_off-timer h timer k l in
    subst (λ x. Sent t (fire_put_off x h).0) (sym p)
      (flush-sends t (record h { put_off = n }) f o c)

pub settle-IsTimed :
    (version now : ℕ) (t : Text) (h : Autosave) → IsTimed t h → Sent t (settle version now h)
settle-IsTimed version now t h k =
    timer-sends version now t h h.in_flight h.debounce h.retry refl refl refl k

-- The answer to the save in flight.
settle-saved :
    (version now : ℕ) (P : Autosave → Type 0) (h : Autosave) (attempt : Attempt)
    → h.in_flight ≡ some attempt
    → P (save_resolved attempt version now h)
    → P (settle version now h)
unfolding autosave_step answer_to
settle-saved version now P h attempt e p =
    subst (λ a. P (autosave_step h (next_event version now a h.debounce h.retry)).0) (sym e)
      (subst (λ a. P (answer_to (saved version now) a h)) (sym e) p)

save_resolved-IsDone :
    (version now : ℕ) (t : Text) (h : Autosave) (attempt : Attempt)
    → attempt.text ≡ t
    → h.state.local_text ≡ t
    → IsDone t (save_resolved attempt version now h)
unfolding save_resolved
save_resolved-IsDone version now t h attempt e l = (refl, l, e)

pub settle-IsSending :
    (version now : ℕ) (t : Text) (h : Autosave) → IsSending t h → IsDone t (settle version now h)
settle-IsSending version now t h (attempt, e, k, l) =
    settle-saved version now (IsDone t) h attempt e
      (save_resolved-IsDone version now t h attempt k l)

save_resolved-IsFlying :
    (version now : ℕ) (t : Text) (h : Autosave) (attempt : Attempt)
    → IsOpen t h
    → let h' = save_resolved attempt version now h in IsDone t h' ⊎ IsTimed t h'
unfolding save_resolved
save_resolved-IsFlying version now t h attempt (l, doc) =
    elim (Bool-cases (text_eq h.state.local_text attempt.text)) [
      | inl e ↦ inl (refl, l, sym (text_eq_sound h.state.local_text attempt.text e) ∙ l)
      | inr e ↦ inr (refl, (l, doc), inl (0, rw e refl), rw e refl)
    ]

pub settle-IsFlying :
    (version now : ℕ) (t : Text) (h : Autosave)
    → IsFlying t h
    → IsDone t (settle version now h) ⊎ IsTimed t (settle version now h)
settle-IsFlying version now t h ((attempt, e), o) =
    settle-saved version now (λ h'. IsDone t h' ⊎ IsTimed t h') h attempt e
      (save_resolved-IsFlying version now t h attempt o)

-- Nothing happens to a text that is saved.
start_save-IsDone :
    (t : Text) (o : Option Attempt) (doc : String) (h : Autosave)
    → text_eq h.state.local_text h.state.server_text ≡ false
    → IsDone t h
    → IsDone t (start_save o doc h).0
start_save-IsDone t o doc h e (f, l, s) = ground (arith, rw (l, s, text_eq_refl t) at e)

flush_document-IsDone :
    (t : Text) (o : Option String) (h : Autosave) → IsDone t h → IsDone t (flush_document o h).0
unfolding flush_document
flush_document-IsDone t none h k = k
flush_document-IsDone t (some doc) h k =
    if-elim (λ (r : Result). IsDone t r.0) (is_conflict h.state.status) k
      (if-split (λ (r : Result). IsDone t r.0) (text_eq h.state.local_text h.state.server_text)
        (λ _. if-elim (IsDone t) (is_clean h.state.status) k k)
        (λ e. start_save-IsDone t h.in_flight doc h e k))

flush-IsDone : (t : Text) (h : Autosave) → IsDone t h → IsDone t (flush h).0
unfolding flush
flush-IsDone t h k = flush_document-IsDone t h.state.document_id (record h { debounce = none }) k

fire-IsDone :
    (t : Text) (o : Option ℕ) (h cleared : Autosave)
    → IsDone t h
    → IsDone t cleared
    → IsDone t (fire o h cleared).0
unfolding fire
fire-IsDone t none h cleared k c = k
fire-IsDone t (some delay) h cleared k c = flush-IsDone t cleared c

fire_put_off-IsDone : (t : Text) (n : ℕ) (h : Autosave) → IsDone t h → IsDone t (fire_put_off n h).0
unfolding fire_put_off
fire_put_off-IsDone t zero h k = k
fire_put_off-IsDone t (suc n) h k = flush-IsDone t (record h { put_off = n }) k

timer-IsDone :
    (version now : ℕ) (t : Text) (h : Autosave) (a : Option Attempt) (d r : Option ℕ)
    → h.in_flight ≡ a
    → IsDone t h
    → IsDone t (autosave_step h (next_event version now a d r)).0
unfolding autosave_step
timer-IsDone version now t h (some attempt) d r e (f, _, _) = ground (arith, e, f)
timer-IsDone version now t h none (some delay) r e k =
    fire-IsDone t h.debounce h (record h { debounce = none }) k k
timer-IsDone version now t h none none (some delay) e k =
    fire-IsDone t h.retry h (record h { retry = none }) k k
timer-IsDone version now t h none none none e k = fire_put_off-IsDone t h.put_off h k

pub settle-IsDone :
    (version now : ℕ) (t : Text) (h : Autosave) → IsDone t h → IsDone t (settle version now h)
settle-IsDone version now t h k = timer-IsDone version now t h h.in_flight h.debounce h.retry refl k
