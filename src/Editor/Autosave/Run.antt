-- ===== src/Editor/Autosave/Run.antt =====
-- frontend/src/modules/editor/autosave/use-document-autosave.ts: the switch of the document, the triggers
-- of a save, and the hook as a whole.
use inkstave.Prelude.{
  ℕ, zero, suc, Bool, true, false, not, ◌&&◌, Option, none, some, List, [], ◌∷◌, ◌++◌, Text,
  text_eq, if◌then◌else◌,
}
use inkstave.Editor.Autosave.{
  Autosave, AutosaveState, Attempt, ConflictInfo, DocumentContent, SaveStatus, is_conflict,
  is_waiting, attempt_of, flush, save_resolved, save_conflicted, save_failed, on_local_change,
  resolve_reload, resolve_keep_mine,
}

-- `EMPTY` and the refs of a new hook.
abbrev pub empty_hook : Autosave
empty_hook = record {
  state = record {
    document_id = none;
    base_version = 0;
    server_text = [];
    local_text = [];
    display_text = [];
    status = SaveStatus.clean;
    last_saved_at = none;
    retry_count = 0;
    conflict_info = none;
  };
  in_flight = none;
  debounce = none;
  retry = none;
  put_off = 0;
  is_seeded = false;
}

-- The last save of the document that is left; nobody awaits its answer.
unfoldable pub leaving_save : AutosaveState → List Attempt
leaving_save s = elim s.document_id [
  | none ↦ []
  | some doc ↦
      if not (text_eq s.local_text s.server_text) && not (is_conflict s.status)
      then attempt_of doc s ∷ []
      else []
]

-- The cleanup of the effect, with `clearTimers`.
unfoldable pub leave : Autosave → Autosave × List Attempt
unfolding leaving_save
leave h =
    if h.is_seeded
    then (record h { debounce = none; retry = none; is_seeded = false }, leaving_save h.state)
    else (h, [])

unfoldable pub seed : DocumentContent → Autosave → Autosave
seed loaded h = record h {
  is_seeded = true;
  state = record {
    document_id = some loaded.id;
    base_version = loaded.loaded_version;
    server_text = loaded.content;
    local_text = loaded.content;
    display_text = loaded.content;
    status = SaveStatus.clean;
    last_saved_at = none;
    retry_count = 0;
    conflict_info = none;
  };
}

unfoldable pub enter : Option DocumentContent → Autosave → Autosave
unfolding seed
enter none h = h
enter (some loaded) h = seed loaded h

-- The effect, when the id of the loaded document is another one.
unfoldable pub switch_document : Option DocumentContent → Autosave → Autosave × List Attempt
unfolding leave enter
switch_document loaded h = let (left, requests) = leave h in (enter loaded left, requests)

-- `onOnline`.
unfoldable pub went_online : Autosave → Autosave × List Attempt
went_online h = if is_waiting h.state.status then flush h else (h, [])

-- What the server answers to the save in flight: its new version, a conflict, or no answer, with what
-- `navigator.onLine` says.
pub data Answer : Type 0 where
  saved : (version now : ℕ) → Answer
  conflicted : (info : ConflictInfo) → Answer
  failed : (online : Bool) → Answer

unfoldable pub answer_to : Answer → Option Attempt → Autosave → Autosave
unfolding save_resolved save_conflicted save_failed
answer_to answer none h = h
answer_to (saved version now) (some attempt) h = save_resolved attempt version now h
answer_to (conflicted info) (some attempt) h = save_conflicted info h
answer_to (failed online) (some attempt) h = save_failed online h

-- `saveNow` and the hidden tab are `flushed`.
pub data AutosaveEvent : Type 0 where
  edited : (text : Text) → AutosaveEvent
  flushed online debounce_fired retry_fired put_off_fired keep_mine : AutosaveEvent
  answered : (answer : Answer) → AutosaveEvent
  reload : (now : ℕ) → AutosaveEvent
  switched : (loaded : Option DocumentContent) → AutosaveEvent

-- A timer that runs `flush`, if it is set.
unfoldable pub fire : Option ℕ → Autosave → Autosave → Autosave × List Attempt
unfolding flush
fire none h cleared = (h, [])
fire (some delay) h cleared = flush cleared

unfoldable pub fire_put_off : ℕ → Autosave → Autosave × List Attempt
unfolding flush
fire_put_off zero h = (h, [])
fire_put_off (suc n) h = flush (record h { put_off = n })

unfoldable pub autosave_step : Autosave → AutosaveEvent → Autosave × List Attempt
unfolding on_local_change flush went_online fire fire_put_off answer_to resolve_reload
    resolve_keep_mine switch_document
autosave_step h (edited text) = (on_local_change text h, [])
autosave_step h flushed = flush h
autosave_step h online = went_online h
autosave_step h debounce_fired = fire h.debounce h (record h { debounce = none })
autosave_step h retry_fired = fire h.retry h (record h { retry = none })
autosave_step h put_off_fired = fire_put_off h.put_off h
autosave_step h (answered answer) = (answer_to answer h.in_flight h, [])
autosave_step h (reload now) = (resolve_reload now h, [])
autosave_step h keep_mine = (resolve_keep_mine h, [])
autosave_step h (switched loaded) = switch_document loaded h

unfoldable pub run_autosave : Autosave → List AutosaveEvent → Autosave × List Attempt
unfolding autosave_step
run_autosave h [] = (h, [])
run_autosave h (event ∷ events) =
    let (next, requests) = autosave_step h event in
    let (last, more) = run_autosave next events in (last, requests ++ more)
