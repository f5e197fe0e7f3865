-- ===== src/Editor/Autosave.antt =====
-- frontend/src/modules/editor/autosave: the saves of the open document. types.ts has the state,
-- use-autosave-flush.ts the save with its timers, use-document-autosave.ts the rest. A step is a handler
-- or the rest of the save after its `await`, and yields the requests that it sends; between two steps the
-- page is rendered, so that each reads the state that the last one left.
pub mod Run
pub mod Clean
pub mod Pending
pub mod Rounds
pub mod Settled
mod Tests
use inkstave.Prelude.{
  ℕ, suc, ◌+◌, ◌-◌, min, Bool, true, false, not, ◌&&◌, ◌||◌, Option, none, some, List, [], ◌∷◌,
  ◌++◌, String, Text, text_eq, if◌then◌else◌, ltb, get_elem?,
}

pub data SaveStatus : Type 0 where
  clean dirty saving error offline conflict : SaveStatus

pub record ConflictInfo : Type 0 where
  pub current_content : Text
  pub current_version : ℕ

pub record AutosaveState : Type 0 where
  pub document_id : Option String
  pub base_version : ℕ
  pub server_text : Text
  pub local_text : Text
  pub display_text : Text
  pub status : SaveStatus
  pub last_saved_at : Option ℕ
  pub retry_count : ℕ
  pub conflict_info : Option ConflictInfo

-- What `saveDocument` is called with.
pub record Attempt : Type 0 where
  pub doc_id : String
  pub text : Text
  pub version : ℕ

pub record DocumentContent : Type 0 where
  pub id : String
  pub content : Text
  pub loaded_version : ℕ

-- The hook: its state, the save whose answer it awaits (`savingRef` is true while there is one), the
-- timers with their delays, the calls of `flush` that `resolveKeepMine` put off, and whether a document
-- was seeded, so that its effect has a cleanup.
pub record Autosave : Type 0 where
  pub state : AutosaveState
  pub in_flight : Option Attempt
  pub debounce : Option ℕ
  pub retry : Option ℕ
  pub put_off : ℕ
  pub is_seeded : Bool

-- `DEBOUNCE_MS`, `RETRY_BACKOFF_MS`, `MAX_RETRIES`.
abbrev pub debounce_ms : ℕ
debounce_ms = 1000

abbrev pub retry_backoff_ms : List ℕ
retry_backoff_ms = 1000 ∷ 2000 ∷ 4000 ∷ 8000 ∷ []

abbrev pub max_retries : ℕ
max_retries = 4

abbrev pub is_clean : SaveStatus → Bool
is_clean SaveStatus.clean = true
is_clean _ = false

abbrev pub is_conflict : SaveStatus → Bool
is_conflict SaveStatus.conflict = true
is_conflict _ = false

-- The statuses that `onOnline` flushes.
abbrev pub is_waiting : SaveStatus → Bool
is_waiting SaveStatus.offline = true
is_waiting SaveStatus.error = true
is_waiting SaveStatus.dirty = true
is_waiting _ = false

abbrev pub set_status : SaveStatus → Autosave → Autosave
set_status status h = record h { state = record h.state { status = status } }

abbrev pub attempt_of : String → AutosaveState → Attempt
attempt_of doc s = record { doc_id = doc; text = s.local_text; version = s.base_version }

-- `flush` after its guards: the save starts unless one is in flight.
unfoldable pub start_save : Option Attempt → String → Autosave → Autosave × List Attempt
start_save (some attempt) doc h = (h, [])
start_save none doc h =
    let attempt = attempt_of doc h.state in
    (record (set_status SaveStatus.saving h) { in_flight = some attempt }, attempt ∷ [])

unfoldable pub flush_document : Option String → Autosave → Autosave × List Attempt
unfolding start_save
flush_document none h = (h, [])
flush_document (some doc) h =
    if is_conflict h.state.status
    then (h, [])
    else if text_eq h.state.local_text h.state.server_text
    then (if is_clean h.state.status then h else set_status SaveStatus.clean h, [])
    else start_save h.in_flight doc h

unfoldable pub flush : Autosave → Autosave × List Attempt
unfolding flush_document
flush h = flush_document h.state.document_id (record h { debounce = none })

-- The save of an attempt has answered with a version.
unfoldable pub save_resolved : Attempt → ℕ → ℕ → Autosave → Autosave
save_resolved attempt version now h =
    let still_dirty = not (text_eq h.state.local_text attempt.text) in
    record h {
      in_flight = none;
      debounce = if still_dirty then some 0 else h.debounce;
      state = record h.state {
        base_version = version;
        server_text = attempt.text;
        last_saved_at = some now;
        retry_count = 0;
        status = if still_dirty then SaveStatus.dirty else SaveStatus.clean;
      };
    }

unfoldable pub save_conflicted : ConflictInfo → Autosave → Autosave
save_conflicted info h = record h {
  in_flight = none;
  state = record h.state { status = SaveStatus.conflict; conflict_info = some info };
}

unfoldable pub retry_delay : ℕ → Option ℕ
retry_delay retry_count = get_elem? retry_backoff_ms (min (retry_count - 1) 3)

unfoldable pub save_failed : Bool → Autosave → Autosave
unfolding retry_delay
save_failed online h =
    let retry_count = suc h.state.retry_count in
    if ltb max_retries retry_count
    then record h {
      in_flight = none;
      state = record h.state { status = SaveStatus.error; retry_count = retry_count };
    }
    else record h {
      in_flight = none;
      retry = retry_delay retry_count;
      state = record h.state {
        status = if online then SaveStatus.error else SaveStatus.offline;
        retry_count = retry_count;
      };
    }

-- The status after an edit.
abbrev pub edited_status : SaveStatus → Bool → SaveStatus
edited_status SaveStatus.conflict as_server = SaveStatus.conflict
edited_status _ as_server = if as_server then SaveStatus.clean else SaveStatus.dirty

abbrev pub schedule : SaveStatus → Option ℕ → Option ℕ
schedule SaveStatus.dirty timer = some debounce_ms
schedule _ timer = timer

unfoldable pub on_local_change : Text → Autosave → Autosave
on_local_change text h =
    let status = edited_status h.state.status (text_eq text h.state.server_text) in
    if text_eq text h.state.local_text then h else record h {
      state = record h.state { local_text = text; status = status };
      debounce = schedule status h.debounce;
    }

unfoldable pub take_theirs : Option ConflictInfo → ℕ → Autosave → Autosave
take_theirs none now h = h
take_theirs (some info) now h = record h {
  state = record h.state {
    display_text = info.current_content;
    local_text = info.current_content;
    server_text = info.current_content;
    base_version = info.current_version;
    status = SaveStatus.clean;
    conflict_info = none;
    last_saved_at = some now;
  };
}

unfoldable pub resolve_reload : ℕ → Autosave → Autosave
unfolding take_theirs
resolve_reload now h = take_theirs h.state.conflict_info now h

unfoldable pub keep_ours : Option ConflictInfo → Autosave → Autosave
keep_ours none h = h
keep_ours (some info) h = record h {
  put_off = suc h.put_off;
  state = record h.state {
    base_version = info.current_version;
    server_text = info.current_content;
    status = SaveStatus.dirty;
    conflict_info = none;
  };
}

unfoldable pub resolve_keep_mine : Autosave → Autosave
unfolding keep_ours
resolve_keep_mine h = keep_ours h.state.conflict_info h
