-- ===== src/Collab/Provider/Tests.antt =====
-- A connection that breaks off, comes back, and ends.
use inkstave.Prelude.{◌≡◌, refl, ◌⊎◌, Bool, true, false, none, some, List, [], ◌∷◌}
use inkstave.Collab.Provider.{
  Frame, ProviderEvent, connect, new_provider, socket_event, opened, was_closed, got_token,
  reconnect_fired, throttle_due, doc_updated, awareness_changed, destroy_called, provider_step,
  run_provider,
}
use inkstave.Collab.Provider.Link.{Link}
use inkstave.Collab.Provider.Linked.{run_provider-Link}
use inkstave.Collab.Provider.Reconnects.{IsOnline, comes_back, run_provider-IsOnline}
use inkstave.Collab.Provider.Over.{IsQuiet}
use inkstave.Collab.Provider.Quiet.{run_provider-ends}
use inkstave.Collab.Provider.Awareness.{run_provider-flushes}

abbrev never : Frame → Bool
never frame = false

-- The socket opens and closes.
abbrev breaks_off : List ProviderEvent
breaks_off =
    got_token
    ∷ socket_event opened
    ∷ awareness_changed false (3 ∷ [])
    ∷ socket_event (was_closed none)
    ∷ []

run_provider-Link_example : Link (run_provider never (connect (new_provider true)).0 breaks_off).0
run_provider-Link_example = run_provider-Link never true breaks_off

run_provider-IsOnline_example :
    IsOnline
      (run_provider never
        (run_provider never (connect (new_provider true)).0 breaks_off).0
        comes_back).0
unfolding connect run_provider
run_provider-IsOnline_example = run_provider-IsOnline never true breaks_off refl refl refl

-- The user was removed from the project.
run_provider-ends_example : IsQuiet (
    run_provider never
      (provider_step never
        (run_provider never
          (connect (new_provider true)).0
          (got_token ∷ socket_event opened ∷ [])).0
        (socket_event (was_closed (some 4403)))).0
      (reconnect_fired ∷ doc_updated false [] ∷ destroy_called 1 ∷ []))
unfolding connect run_provider
run_provider-ends_example =
    run_provider-ends never true (got_token ∷ socket_event opened ∷ [])
      (socket_event (was_closed (some 4403)))
      (reconnect_fired ∷ doc_updated false [] ∷ destroy_called 1 ∷ []) refl

run_provider-flushes_example :
    let p =
      (run_provider never (connect (new_provider true)).0 (
        got_token
        ∷ socket_event opened
        ∷ awareness_changed false (3 ∷ [])
        ∷ awareness_changed false (4 ∷ 3 ∷ [])
        ∷ [])).0 in
    let p' = (provider_step never p throttle_due).0 in
    (p'.destroyed ≡ true) ⊎ (p'.pending_awareness ≡ [])
run_provider-flushes_example = run_provider-flushes never true (
    got_token
    ∷ socket_event opened
    ∷ awareness_changed false (3 ∷ [])
    ∷ awareness_changed false (4 ∷ 3 ∷ [])
    ∷ [])
