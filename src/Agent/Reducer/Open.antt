-- ===== src/Agent/Reducer/Open.antt =====
-- reducer.ts, `openAssistant`: the open messages of a transcript, counted.
use inkstave.Prelude.{
  ℕ, suc, ◌+◌, ◌≤◌, ◌≡◌, refl, Bool, true, false, none, some, List, [], ◌∷◌, ◌++◌, if◌then◌else◌,
  Text, arith, Bool-cases, Option-cases, inl, inr, ◌⊎◌,
}
use inkstave.Agent.Types.{
  ChatRole, MessageStatus, TranscriptItem, message, tool, diff_proposal, file_op, error, AgentEvent,
}
use inkstave.Agent.Handlers.{is_open, open_assistant, on_message, modify, settle_open, finish_tool}

-- How many assistant messages are still being written.
abbrev pub open_count : List TranscriptItem → ℕ
open_count [] = 0
open_count (item ∷ items) = (if is_open item then 1 else 0) + open_count items

pub open_count-append :
    (xs ys : List TranscriptItem) → open_count (xs ++ ys) ≡ open_count xs + open_count ys
open_count-append [] ys = omega arith
open_count-append (x ∷ xs) ys = omega (arith, open_count-append xs ys)

pub open_count-none :
    (items : List TranscriptItem) → open_assistant items ≡ none → open_count items ≡ 0
unfolding open_assistant
open_count-none [] h = refl
open_count-none (item ∷ items) h = elim (Option-cases (open_assistant items)) [
  | inl e ↦ elim (Bool-cases (is_open item)) [
    | inl on ↦ ground (arith, rw (e, on) at h)
    | inr off ↦ rw off (omega (arith, open_count-none items e))
  ]
  | inr (i, e) ↦ ground (arith, rw e at h)
]

open_assistant-cases :
    (item : TranscriptItem) (items : List TranscriptItem) (idx : ℕ)
    → open_assistant (item ∷ items) ≡ some idx
    → (idx ≡ 0) × (is_open item ≡ true)
      ⊎ ((i : ℕ) × (idx ≡ suc i) × (open_assistant items ≡ some i))
unfolding open_assistant
open_assistant-cases item items idx h = elim (Option-cases (open_assistant items)) [
  | inl e ↦ elim (Bool-cases (is_open item)) [
    | inl on ↦ inl (ground (arith, rw (e, on) at h), on)
    | inr off ↦ ground (arith, rw (e, off) at h)
  ]
  | inr (i, e) ↦ inr (i, ground (arith, rw e at h), e)
]

pub open_count-pos :
    (items : List TranscriptItem) (idx : ℕ) → open_assistant items ≡ some idx → 1 ≤ open_count items
unfolding open_assistant
open_count-pos [] idx h = ground (arith, h)
open_count-pos (item ∷ items) idx h = elim (open_assistant-cases item items idx h) [
  | inl (first, on) ↦ rw on (omega arith)
  | inr (i, later, e) ↦ omega (arith, open_count-pos items i e)
]

-- A change of the last open message.
pub open_count-modify :
    (f : TranscriptItem → TranscriptItem) (kept : Bool)
    → ((item : TranscriptItem) → is_open item ≡ true → is_open (f item) ≡ kept)
    → (items : List TranscriptItem) (idx : ℕ) → open_assistant items ≡ some idx
    → open_count (modify f items idx) + 1 ≡ open_count items + (if kept then 1 else 0)
unfolding open_assistant modify
open_count-modify f kept law [] idx h = ground arith
open_count-modify f kept law (item ∷ items) idx h = elim (open_assistant-cases item items idx h) [
  | inl (first, on) ↦ rw (first, on, law item on) (omega arith)
  | inr (i, later, e) ↦ rw later (omega (arith, open_count-modify f kept law items i e))
]

pub on_message-open :
    (f : Text → Text) (item : TranscriptItem)
    → is_open item ≡ true
    → is_open (on_message f MessageStatus.streaming item) ≡ true
on_message-open f (message id ChatRole.assistant text status) h = refl
on_message-open f (message id ChatRole.user text status) h = ground (arith, h)
on_message-open f (tool id name args result status error_text) h = h
on_message-open f (diff_proposal id proposal_id status files) h = h
on_message-open f (file_op id op) h = h
on_message-open f (error id code text retryable) h = h

-- A status of a message that is not being written.
abbrev pub is_final : MessageStatus → Bool
is_final MessageStatus.streaming = false
is_final _ = true

pub on_message-closed :
    (f : Text → Text) (status : MessageStatus) (item : TranscriptItem)
    → is_final status ≡ true
    → is_open item ≡ true
    → is_open (on_message f status item) ≡ false
on_message-closed f MessageStatus.streaming item final h = ground (arith, final)
on_message-closed f MessageStatus.complete (message id ChatRole.assistant text status) final h =
    refl
on_message-closed f MessageStatus.complete (message id ChatRole.user text status) final h = refl
on_message-closed f MessageStatus.cancelled (message id ChatRole.assistant text status) final h =
    refl
on_message-closed f MessageStatus.cancelled (message id ChatRole.user text status) final h = refl
on_message-closed f MessageStatus.failed (message id ChatRole.assistant text status) final h = refl
on_message-closed f MessageStatus.failed (message id ChatRole.user text status) final h = refl
on_message-closed f status (tool id name args result tool_status error_text) final h =
    ground (arith, h)
on_message-closed f status (diff_proposal id proposal_id diff_status files) final h =
    ground (arith, h)
on_message-closed f status (file_op id op) final h = ground (arith, h)
on_message-closed f status (error id code text retryable) final h = ground (arith, h)

pub open_count-settled :
    (f : Text → Text) (status : MessageStatus) (items : List TranscriptItem) (idx : ℕ)
    → is_final status ≡ true
    → open_count items ≤ 1
    → open_assistant items ≡ some idx
    → open_count (modify (on_message f status) items idx) ≡ 0
open_count-settled f status items idx final one h = omega (
  arith,
  one,
  open_count-modify (on_message f status) false (λ item. on_message-closed f status item final)
      items idx h,
)

pub open_count-settle_open :
    (status : MessageStatus) (items : List TranscriptItem)
    → is_final status ≡ true
    → open_count items ≤ 1
    → open_count (settle_open status items) ≡ 0
unfolding settle_open
open_count-settle_open status items final one = elim (Option-cases (open_assistant items)) [
  | inl e ↦ rw (e, open_count) (open_count-none items e)
  | inr (idx, e) ↦
      rw (e, open_count) (open_count-settled (λ text. text) status items idx final one e)
]

pub open_count-finish_tool :
    (items : List TranscriptItem) (event : AgentEvent)
    → open_count (finish_tool items event) ≡ open_count items
unfolding finish_tool
open_count-finish_tool [] event = refl
open_count-finish_tool (tool id name args result status error_text ∷ items) event =
    ground (arith, open_count-finish_tool items event)
open_count-finish_tool (message id role text status ∷ items) event =
    omega (arith, open_count-finish_tool items event)
open_count-finish_tool (diff_proposal id proposal_id status files ∷ items) event =
    omega (arith, open_count-finish_tool items event)
open_count-finish_tool (file_op id op ∷ items) event =
    omega (arith, open_count-finish_tool items event)
open_count-finish_tool (error id code text retryable ∷ items) event =
    omega (arith, open_count-finish_tool items event)

-- A new item at the end.
pub open_count-push :
    (items : List TranscriptItem) (item : TranscriptItem)
    → open_count (items ++ item ∷ []) ≡ open_count items + (if is_open item then 1 else 0)
open_count-push items item = rw (open_count-append items (item ∷ [])) (omega arith)
