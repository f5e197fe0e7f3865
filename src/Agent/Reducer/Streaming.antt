-- ===== src/Agent/Reducer/Streaming.antt =====
-- reducer.ts, `applyToken`: a stream of tokens.
use mathlib.Core.List.{foldl}
use inkstave.Prelude.{
  ℕ, ◌≡◌, refl, sym, ap, subst, ◌∙◌, true, false, none, some, List, [], ◌∷◌, ◌++◌, str_eq, length,
  String, Text, arith, append_assoc, append-nil,
}
use inkstave.Agent.Types.{
  ChatRole, MessageStatus, TranscriptItem, message, AgentRunState, AgentEvent,
}
use inkstave.Agent.Reducer.{dispatch, seen, note_seq, apply_event}
use inkstave.Agent.Handlers.{
  Env, or, numbered, is_open, open_assistant, on_message, modify, token_items, apply_token,
}
use inkstave.Agent.Reducer.Seen.{seen_seqs-apply_event, apply_events}

-- Events of the type "token" that were not delivered before.
abbrev pub AreNewTokens : List ℕ → List AgentEvent → Type 0
AreNewTokens seqs [] = Unit
AreNewTokens seqs (event ∷ events) =
    (str_eq event.type "token" ≡ true)
    × (seen event.seq seqs ≡ false)
    × AreNewTokens (note_seq event.seq seqs) events

-- Their texts, one after the other.
abbrev pub text_of : List AgentEvent → Text
text_of [] = []
text_of (event ∷ events) = or event.text [] ++ text_of events

open_assistant-push :
    (items : List TranscriptItem) (item : TranscriptItem)
    → is_open item ≡ true
    → open_assistant (items ++ item ∷ []) ≡ some (length items)
unfolding open_assistant
open_assistant-push [] item on = rw on
open_assistant-push (first ∷ items) item on =
    rw (open_assistant-push items item on) (ap some (omega arith))

modify-push :
    (f : TranscriptItem → TranscriptItem) (items : List TranscriptItem) (item : TranscriptItem)
    → modify f (items ++ item ∷ []) (length items) ≡ items ++ f item ∷ []
unfolding modify
modify-push f [] item = refl
modify-push f (first ∷ items) item = ap (λ rest. first ∷ rest) (modify-push f items item)

module _ (env : Env) where
  token_items-push :
      (items : List TranscriptItem) (id : String) (text : Text) (event : AgentEvent)
      → token_items env
          (items ++ message id ChatRole.assistant text MessageStatus.streaming ∷ [])
          event
        ≡ items
          ++ message id ChatRole.assistant (text ++ or event.text []) MessageStatus.streaming ∷ []
  unfolding token_items
  token_items-push items id text event =
      rw
        (
          open_assistant-push items (message id ChatRole.assistant text MessageStatus.streaming)
              refl,
          token_items,
        )
        (modify-push (on_message (λ t. t ++ or event.text []) MessageStatus.streaming) items
          (message id ChatRole.assistant text MessageStatus.streaming))

  token_items-none :
      (items : List TranscriptItem) (event : AgentEvent)
      → open_assistant items ≡ none
      → token_items env items event
        ≡ items
          ++ message
              (numbered env "a-" (some (or event.seq (length items))))
              ChatRole.assistant
              (or event.text [])
              MessageStatus.streaming
            ∷ []
  unfolding token_items
  token_items-none items event closed = rw (closed, token_items)

  foldl-token_items :
      (items : List TranscriptItem) (id : String) (text : Text) (events : List AgentEvent)
      → foldl
          (token_items env)
          (items ++ message id ChatRole.assistant text MessageStatus.streaming ∷ [])
          events
        ≡ items
          ++ message id ChatRole.assistant (text ++ text_of events) MessageStatus.streaming ∷ []
  foldl-token_items items id text [] = rw (append-nil text)
  foldl-token_items items id text (event ∷ events) =
      ap (λ after. foldl (token_items env) after events) (token_items-push items id text event)
      ∙ foldl-token_items items id (text ++ or event.text []) events
      ∙ ap
          (λ all_text. items ++ message id ChatRole.assistant all_text MessageStatus.streaming ∷ [])
          (append_assoc text (or event.text []) (text_of events))

  items-apply_event_token :
      (state : AgentRunState) (event : AgentEvent)
      → str_eq event.type "token" ≡ true
      → seen event.seq state.seen_seqs ≡ false
      → (apply_event env state event).items ≡ token_items env state.items event
  unfolding apply_event dispatch apply_token
  items-apply_event_token state event token new = rw (new, token)

  items-apply_events :
      (state : AgentRunState) (events : List AgentEvent)
      → AreNewTokens state.seen_seqs events
      → (apply_events env state events).items ≡ foldl (token_items env) state.items events
  unfolding apply_events
  items-apply_events state [] new = refl
  items-apply_events state (event ∷ events) (token, new, rest) =
      items-apply_events (apply_event env state event) events (
        subst (λ seqs. AreNewTokens seqs events)
          (sym (seen_seqs-apply_event env state event ∙ rw new)) rest)
      ∙ ap (λ items. foldl (token_items env) items events)
          (items-apply_event_token state event token new)

  -- While no message is open, a run of new tokens adds one message to the transcript, open, whose
  -- text is the tokens' texts in order; nothing else of the transcript changes.
  pub apply_events-tokens :
      (state : AgentRunState) (event : AgentEvent) (events : List AgentEvent)
      → open_assistant state.items ≡ none
      → AreNewTokens state.seen_seqs (event ∷ events)
      → (apply_events env state (event ∷ events)).items
        ≡ state.items
          ++ message
              (numbered env "a-" (some (or event.seq (length state.items))))
              ChatRole.assistant
              (text_of (event ∷ events))
              MessageStatus.streaming
            ∷ []
  apply_events-tokens state event events closed new =
      items-apply_events state (event ∷ events) new
      ∙ ap (λ items. foldl (token_items env) items events)
          (token_items-none state.items event closed)
      ∙ foldl-token_items state.items (numbered env "a-" (some (or event.seq (length state.items))))
          (or event.text []) events
