-- ===== src/Collab/Provider/Awareness.antt =====
-- InkstaveWsProvider.ts and throttle.ts: the awareness that waits for the throttle.
use inkstave.Prelude.{
  ℕ, ◌≡◌, refl, ◌∙◌, ◌⊎◌, inl, inr, Bool, true, false, not, ◌||◌, ◌&&◌, Option, none, some, List,
  [], ◌∷◌, if◌then◌else◌, if-split, if-elim, ltb, arith,
}
use inkstave.Collab.Throttle.{ThrottleState, wrapped, run_timer, cancel}
use inkstave.Collab.Provider.{
  Provider, ProviderCall, SocketState, Frame, NoArgs, no_args, closed, connecting, connected,
  reconnecting, ready, is_some, schedule_reconnect, connect, take_token, token_arrived,
  token_failed, timer_fired, flush_pending, on_awareness, on_open, on_sync, on_close,
  throttle_fired, destroy, add_ids, SocketEvent, opened, ended, failed, awareness_received,
  sync_received, was_closed, on_socket, ProviderEvent, socket_event, got_token, no_token,
  reconnect_fired, throttle_due, doc_updated, awareness_changed, destroy_called, provider_step,
  run_provider, is_terminal, new_provider,
}
use inkstave.Collab.Provider.Link.{set_status-status}

abbrev Result : Type 0
Result = Provider × List ProviderCall

-- The throttle will call the function when its timer fires.
abbrev IsDue : ThrottleState NoArgs → Type 0
IsDue t = (t.timer ≡ true) × (t.pending ≡ true) × ((args : NoArgs) × (t.last_args ≡ some args))

-- What waits to be sent is not forgotten by the throttle.
abbrev pub IsTold : Provider → Type 0
IsTold p = (p.destroyed ≡ true) ⊎ (p.pending_awareness ≡ []) ⊎ IsDue p.flush_awareness

schedule_reconnect-IsTold : (p : Provider) → IsTold p → IsTold (schedule_reconnect p)
unfolding schedule_reconnect
schedule_reconnect-IsTold p k =
    if-elim IsTold (p.destroyed || p.stopped || is_some p.reconnect_timer) k k

connect-IsTold : (p : Provider) → IsTold p → IsTold (connect p).0
unfolding connect
connect-IsTold p k =
    if-elim (λ (r : Result). IsTold r.0) (p.destroyed || p.stopped || is_some p.ws) k
      (set_status-status IsTold (if ltb 0 p.reconnect_attempt then reconnecting else connecting)
        (record p { awaits_token = true }) k)

take_token-IsTold : (b d : Bool) (p : Provider) → IsTold p → IsTold (take_token b d p).0
unfolding take_token
take_token-IsTold false d p k = k
take_token-IsTold true true p k = k
take_token-IsTold true false p k = k

timer_fired-IsTold : (o : Option ℕ) (p : Provider) → IsTold p → IsTold (timer_fired o p).0
unfolding timer_fired
timer_fired-IsTold none p k = k
timer_fired-IsTold (some delay) p k = connect-IsTold (record p { reconnect_timer = none }) k

wrapped_when :
    (t : ThrottleState NoArgs) (b : Bool)
    → t.timer ≡ b
    → let r : ThrottleState NoArgs × List NoArgs =
        if b
        then (record t { last_args = some no_args; pending = true }, [])
        else (record t { last_args = some no_args; timer = true }, no_args ∷ []) in
      (r.1 ≡ no_args ∷ []) ⊎ IsDue r.0
wrapped_when t true e = inr (e, refl, (no_args, refl))
wrapped_when t false e = inl refl

-- A call of the throttled function: it runs at once, or is due.
wrapped-cases :
    (t : ThrottleState NoArgs)
    → ((wrapped no_args t).1 ≡ no_args ∷ []) ⊎ IsDue (wrapped no_args t).0
unfolding wrapped
wrapped-cases t = wrapped_when t t.timer refl

module _ (fails : Frame → Bool) where
  flush_pending-clears :
      (calls : List NoArgs) (p : Provider)
      → p.pending_awareness ≡ []
      → (flush_pending fails calls p).0.pending_awareness ≡ []
  unfolding flush_pending
  flush_pending-clears [] p e = e
  flush_pending-clears (call ∷ calls) p e =
      flush_pending-clears calls (record p { pending_awareness = [] }) refl

  flush_pending-destroyed :
      (calls : List NoArgs) (p : Provider) → (flush_pending fails calls p).0.destroyed ≡ p.destroyed
  unfolding flush_pending
  flush_pending-destroyed [] p = refl
  flush_pending-destroyed (call ∷ calls) p =
      flush_pending-destroyed calls (record p { pending_awareness = [] })

  -- After the calls of the throttle.
  flush_pending-IsTold :
      (calls : List NoArgs) (p : Provider)
      → (calls ≡ no_args ∷ []) ⊎ IsDue p.flush_awareness
      → IsTold (flush_pending fails calls p).0
  unfolding flush_pending
  flush_pending-IsTold [] p (inl e) = ground (arith, e)
  flush_pending-IsTold [] p (inr due) = inr (inr due)
  flush_pending-IsTold (call ∷ calls) p k =
      inr (inl (flush_pending-clears calls (record p { pending_awareness = [] }) refl))

  on_awareness-IsTold :
      (changed : List ℕ) (p : Provider) → IsTold p → IsTold (on_awareness fails changed p).0
  unfolding on_awareness
  on_awareness-IsTold changed p k =
      let (throttle, calls) = wrapped no_args p.flush_awareness in
      if-elim (λ (r : Result). IsTold r.0) p.is_throttled
        (flush_pending-IsTold calls
          (record p {
            pending_awareness = add_ids changed p.pending_awareness;
            flush_awareness = throttle;
          })
          (wrapped-cases p.flush_awareness))
        k

  run_timer-flushes :
      (t : ThrottleState NoArgs) (p : Provider)
      → IsDue t
      → (flush_pending fails (run_timer t).1 p).0.pending_awareness ≡ []
  unfolding flush_pending run_timer wrapped
  run_timer-flushes t p (e, k, (args, l)) = rw (k, l) refl

  -- When the timer of the throttle fires, everything that waited has been handed on.
  throttle_fired-clears :
      (p : Provider)
      → IsTold p
      → let p' = (throttle_fired fails p).0 in (p'.destroyed ≡ true) ⊎ (p'.pending_awareness ≡ [])
  unfolding throttle_fired
  throttle_fired-clears p k =
      let (throttle, calls) = run_timer p.flush_awareness in
      let next = record p { flush_awareness = throttle } in
      if-split (λ (r : Result). (r.0.destroyed ≡ true) ⊎ (r.0.pending_awareness ≡ []))
        p.flush_awareness.timer
        (λ _. elim k [
          | inl d ↦ inl (flush_pending-destroyed calls next ∙ d)
          | inr (inl e) ↦ inr (flush_pending-clears calls next e)
          | inr (inr due) ↦ inr (run_timer-flushes p.flush_awareness next due)
        ])
        (λ e. elim k [
          | inl d ↦ inl d
          | inr (inl f) ↦ inr f
          | inr (inr (t, _, _)) ↦ ground (arith, t, e)
        ])

  told : (p : Provider) → (p.destroyed ≡ true) ⊎ (p.pending_awareness ≡ []) → IsTold p
  told p (inl d) = inl d
  told p (inr e) = inr (inl e)

  on_close-IsTold :
      (gone terminal : Bool) (p : Provider) → IsTold p → IsTold (on_close fails gone terminal p).0
  unfolding on_close
  on_close-IsTold true terminal p k = set_status-status IsTold closed (record p { ws = none }) k
  on_close-IsTold false true p k =
      set_status-status IsTold closed (record p { ws = none; stopped = true }) k
  on_close-IsTold false false p k =
      set_status-status (λ q. IsTold (schedule_reconnect q)) reconnecting (record p { ws = none })
        (schedule_reconnect-IsTold (record p { ws = none; status = reconnecting }) k)

  on_socket-IsTold :
      (ws : Option SocketState) (event : SocketEvent) (p : Provider)
      → IsTold p
      → IsTold (on_socket fails ws event p).0
  unfolding on_socket on_open on_sync
  on_socket-IsTold none event p k = k
  on_socket-IsTold (some state) opened p k =
      set_status-status IsTold connected (record p { reconnect_attempt = 0; ws = some ready }) k
  on_socket-IsTold (some state) ended p k = k
  on_socket-IsTold (some state) failed p k = k
  on_socket-IsTold (some state) awareness_received p k = k
  on_socket-IsTold (some state) (sync_received is_step2 reply) p k =
      if-elim (λ (r : Result). IsTold r.0) (is_step2 && not p.synced) k k
  on_socket-IsTold (some state) (was_closed code) p k =
      on_close-IsTold p.destroyed (is_terminal code) p k

  destroy-IsTold : (client : ℕ) (p : Provider) → IsTold p → IsTold (destroy fails client p).0
  unfolding destroy
  destroy-IsTold client p k =
      if-elim (λ (r : Result). IsTold r.0) p.destroyed k
        (set_status-status IsTold closed
          (record p {
            destroyed = true;
            flush_awareness = cancel p.flush_awareness;
            reconnect_timer = none;
            ws = none;
          })
          (inl refl))

  provider_step-IsTold :
      (p : Provider) (event : ProviderEvent) → IsTold p → IsTold (provider_step fails p event).0
  unfolding provider_step token_arrived token_failed
  provider_step-IsTold p (socket_event event) k = on_socket-IsTold p.ws event p k
  provider_step-IsTold p got_token k = take_token-IsTold p.awaits_token p.destroyed p k
  provider_step-IsTold p no_token k =
      if-elim (λ (r : Result). IsTold r.0) p.awaits_token
        (schedule_reconnect-IsTold (record p { awaits_token = false }) k) k
  provider_step-IsTold p reconnect_fired k = timer_fired-IsTold p.reconnect_timer p k
  provider_step-IsTold p throttle_due k =
      told (throttle_fired fails p).0 (throttle_fired-clears p k)
  provider_step-IsTold p (doc_updated own body) k = k
  provider_step-IsTold p (awareness_changed own changed) k =
      if-elim (λ (r : Result). IsTold r.0) (own || p.destroyed) k (on_awareness-IsTold changed p k)
  provider_step-IsTold p (destroy_called client) k = destroy-IsTold client p k

  run_provider-IsTold :
      (p : Provider) (events : List ProviderEvent)
      → IsTold p
      → IsTold (run_provider fails p events).0
  unfolding run_provider
  run_provider-IsTold p [] k = k
  run_provider-IsTold p (event ∷ events) k =
      run_provider-IsTold (provider_step fails p event).0 events (provider_step-IsTold p event k)

  -- Whatever has happened to a provider that connects: when the timer of the throttle fires, no change of
  -- the awareness waits any more, unless the provider has been destroyed.
  pub run_provider-flushes :
      (throttled : Bool) (events : List ProviderEvent)
      → let p = (run_provider fails (connect (new_provider throttled)).0 events).0 in
        let p' = (provider_step fails p throttle_due).0 in
        (p'.destroyed ≡ true) ⊎ (p'.pending_awareness ≡ [])
  unfolding provider_step
  run_provider-flushes throttled events =
      let p = (run_provider fails (connect (new_provider throttled)).0 events).0 in
      throttle_fired-clears p (
        run_provider-IsTold (connect (new_provider throttled)).0 events
          (connect-IsTold (new_provider throttled) (inr (inl refl))))
