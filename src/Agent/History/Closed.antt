-- ===== src/Agent/History/Closed.antt =====
-- reducer.ts, `historyToItems`: the open messages of a loaded transcript.
use inkstave.Prelude.{
  ◌≡◌, refl, Bool, false, Option, List, [], ◌∷◌, ◌++◌, map, ◌==◌, str_eq, length, String, Text,
  arith, Bool-cases, inl, inr,
}
use inkstave.Agent.Types.{TranscriptItem, AgentEvent}
use inkstave.Agent.Handlers.{Env, or, is_open, initial_run_state}
use inkstave.Agent.Reducer.Open.{open_count, open_count-append}
use inkstave.Agent.Reducer.Seen.{apply_events}
use inkstave.Agent.Reducer.Sound.{IsSound, apply_events-IsSound}
use inkstave.Agent.History.{
  WireMessage, WireDiffSummary, WireFileOp, Outcomes, tool_results, call_item, message_items,
  all_message_items, diff_item, op_item, history_to_items,
}

open_count-map :
    {A : Type 0} (f : A → TranscriptItem)
    → ((x : A) → is_open (f x) ≡ false)
    → (xs : List A) → open_count (map f xs) ≡ 0
open_count-map f closed [] = refl
open_count-map f closed (x ∷ xs) = rw (closed x) (omega (arith, open_count-map f closed xs))

open_count-message_items :
    (outcomes : Outcomes) (m : WireMessage) → open_count (message_items outcomes m) ≡ 0
unfolding message_items
open_count-message_items outcomes m = elim (Bool-cases (str_eq m.role "user")) [
  | inl e ↦ rw (e, open_count) (omega arith)
  | inr e ↦ elim (Bool-cases (str_eq m.role "assistant")) [
    | inr f ↦ rw (e, f, open_count)
    | inl f ↦ elim (Bool-cases (length (or m.content []) == 0)) [
      | inl g ↦
          rw (e, f, g, open_count, open_count-append)
            (omega (arith, open_count-map (call_item outcomes) (λ tc. refl) m.tool_calls))
      | inr g ↦
          rw (e, f, g, open_count, open_count-append)
            (omega (arith, open_count-map (call_item outcomes) (λ tc. refl) m.tool_calls))
    ]
  ]
]

open_count-all_message_items :
    (outcomes : Outcomes) (ms : List WireMessage) → open_count (all_message_items outcomes ms) ≡ 0
unfolding all_message_items
open_count-all_message_items outcomes [] = refl
open_count-all_message_items outcomes (m ∷ ms) = omega (
  arith,
  open_count-append (message_items outcomes m) (all_message_items outcomes ms),
  open_count-message_items outcomes m,
  open_count-all_message_items outcomes ms,
)

module _ (parse : Text → Option (Bool × Option String)) (messages : List WireMessage)
    (diffs : List WireDiffSummary) (ops : List WireFileOp) where
  open_count-history_to_items : open_count (history_to_items parse messages diffs ops) ≡ 0
  unfolding history_to_items op_item
  open_count-history_to_items = omega (
    arith,
    open_count-append (all_message_items (tool_results parse messages) messages)
        (map diff_item diffs ++ map op_item ops),
    open_count-append (map diff_item diffs) (map op_item ops),
    open_count-all_message_items (tool_results parse messages) messages,
    open_count-map diff_item (λ d. refl) diffs,
    open_count-map op_item (λ op. refl) ops,
  )

  -- From a loaded conversation, after any events at most one message is being written, and none once
  -- the run is done or cancelled.
  pub history_to_items-IsSound :
      (env : Env) (session : Option String) (events : List AgentEvent)
      → IsSound env (
          apply_events env
            (record (initial_run_state session) {
              items = history_to_items parse messages diffs ops;
            })
            events)
  history_to_items-IsSound env session events =
      apply_events-IsSound env
        (record (initial_run_state session) { items = history_to_items parse messages diffs ops })
        events
        (record {
          one = omega (arith, open_count-history_to_items);
          over = λ over. open_count-history_to_items;
        })
