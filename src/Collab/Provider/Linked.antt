-- ===== src/Collab/Provider/Linked.antt =====
-- InkstaveWsProvider.ts: a provider is connected, or on its way to a connection, or over.
use inkstave.Prelude.{
  ℕ, ◌≡◌, refl, sym, Bool, true, false, ◌||◌, none, List, [], ◌∷◌, if-elim, if-split, subst, arith,
}
use inkstave.Collab.Throttle.{ThrottleState, wrapped, run_timer, cancel}
use inkstave.Collab.Provider.{
  Provider, Frame, NoArgs, no_args, opening, closed, is_some, schedule_reconnect, connect,
  take_token, token_arrived, token_failed, timer_fired, flush_pending, on_awareness, throttle_fired,
  destroy, ProviderEvent, socket_event, got_token, no_token, reconnect_fired, throttle_due,
  doc_updated, awareness_changed, destroy_called, provider_step, run_provider, new_provider,
  add_ids,
}
use inkstave.Collab.Provider.Link.{
  socket_event-Link, Link, Result, set_status-status, schedule_reconnect-Link, connect-Link, gone,
  halted, linked, asking, backing_off,
}

-- A token for a provider that is destroyed, and for one that asks for it.
take_token-gone :
    (b : Bool) (p : Provider)
    → p.destroyed ≡ true
    → p.ws ≡ none
    → p.reconnect_timer ≡ none
    → p.status ≡ closed
    → Link (take_token b true p).0
unfolding take_token
take_token-gone true p d w t c = gone d w t c
take_token-gone false p d w t c = gone d w t c

token_unasked : (p : Provider) → p.awaits_token ≡ false → Link p → Link (token_arrived p).0
unfolding token_arrived take_token
token_unasked p a k = subst (λ b. Link (take_token b p.destroyed p).0) (sym a) k

token_arrived-Link : (p : Provider) → Link p → Link (token_arrived p).0
unfolding token_arrived take_token
token_arrived-Link p (gone d w t c) =
    subst (λ b. Link (take_token p.awaits_token b p).0) (sym d)
      (take_token-gone p.awaits_token p d w t c)
token_arrived-Link p (halted d s w a t c) = token_unasked p a (halted d s w a t c)
token_arrived-Link p (linked d s state w a t) = token_unasked p a (linked d s state w a t)
token_arrived-Link p (backing_off d s w a delay t) = token_unasked p a (backing_off d s w a delay t)
token_arrived-Link p (asking d s w a t) =
    subst (λ b. Link (take_token b p.destroyed p).0) (sym a)
      (subst (λ b. Link (take_token true b p).0) (sym d) (linked d s opening refl refl t))

schedule_reconnect-gone : (p : Provider) → p.destroyed ≡ true → Link p → Link (schedule_reconnect p)
unfolding schedule_reconnect
schedule_reconnect-gone p d k =
    if-split Link (p.destroyed || p.stopped || is_some p.reconnect_timer) (λ _. k)
      (λ e. ground (arith, rw d at e))

token_failed-Link : (p : Provider) → Link p → Link (token_failed p).0
unfolding token_failed
token_failed-Link p k =
    if-split (λ (r : Result). Link r.0) p.awaits_token
      (λ e. elim k [
        | gone d w t c ↦
            schedule_reconnect-gone (record p { awaits_token = false }) d (gone d w t c)
        | asking d s w a t ↦
            schedule_reconnect-Link (record p { awaits_token = false }) d s w refl t
        | halted d s w a t c ↦ ground (arith, e, a)
        | linked d s state w a t ↦ ground (arith, e, a)
        | backing_off d s w a delay t ↦ ground (arith, e, a)
      ])
      (λ _. k)

no_timer :
    (p : Provider) → p.reconnect_timer ≡ none → Link p → Link (timer_fired p.reconnect_timer p).0
unfolding timer_fired
no_timer p t k = subst (λ x. Link (timer_fired x p).0) (sym t) k

timer_fired-Link : (p : Provider) → Link p → Link (timer_fired p.reconnect_timer p).0
unfolding timer_fired
timer_fired-Link p (gone d w t c) = no_timer p t (gone d w t c)
timer_fired-Link p (halted d s w a t c) = no_timer p t (halted d s w a t c)
timer_fired-Link p (linked d s state w a t) = no_timer p t (linked d s state w a t)
timer_fired-Link p (asking d s w a t) = no_timer p t (asking d s w a t)
timer_fired-Link p (backing_off d s w a delay t) =
    subst (λ x. Link (timer_fired x p).0) (sym t)
      (connect-Link (record p { reconnect_timer = none }) d s w refl)

-- What is to be sent of the awareness does not count.
Link-pending :
    (p : Provider) (ids : List ℕ) (throttle : ThrottleState NoArgs)
    → Link p
    → Link (record p { pending_awareness = ids; flush_awareness = throttle })
Link-pending p ids throttle (gone d w t c) = gone d w t c
Link-pending p ids throttle (halted d s w a t c) = halted d s w a t c
Link-pending p ids throttle (linked d s state w a t) = linked d s state w a t
Link-pending p ids throttle (asking d s w a t) = asking d s w a t
Link-pending p ids throttle (backing_off d s w a delay t) = backing_off d s w a delay t

module _ (fails : Frame → Bool) where
  flush_pending-Link :
      (calls : List NoArgs) (p : Provider) → Link p → Link (flush_pending fails calls p).0
  unfolding flush_pending
  flush_pending-Link [] p k = k
  flush_pending-Link (call ∷ calls) p k =
      flush_pending-Link calls (record p { pending_awareness = [] })
        (Link-pending p [] p.flush_awareness k)

  on_awareness-Link :
      (changed : List ℕ) (p : Provider) → Link p → Link (on_awareness fails changed p).0
  unfolding on_awareness
  on_awareness-Link changed p k =
      let (throttle, calls) = wrapped no_args p.flush_awareness in
      let ids = add_ids changed p.pending_awareness in
      if-elim (λ (r : Result). Link r.0) p.is_throttled
        (flush_pending-Link calls (record p { pending_awareness = ids; flush_awareness = throttle })
          (Link-pending p ids throttle k))
        k

  throttle_fired-Link : (p : Provider) → Link p → Link (throttle_fired fails p).0
  unfolding throttle_fired
  throttle_fired-Link p k =
      let (throttle, calls) = run_timer p.flush_awareness in
      if-elim (λ (r : Result). Link r.0) p.flush_awareness.timer
        (flush_pending-Link calls (record p { flush_awareness = throttle })
          (Link-pending p p.pending_awareness throttle k))
        k

  destroy-Link : (client : ℕ) (p : Provider) → Link p → Link (destroy fails client p).0
  unfolding destroy
  destroy-Link client p k =
      if-elim (λ (r : Result). Link r.0) p.destroyed k
        (set_status-status Link closed
          (record p {
            destroyed = true;
            flush_awareness = cancel p.flush_awareness;
            reconnect_timer = none;
            ws = none;
          })
          (gone refl refl refl refl))

  pub provider_step-Link :
      (p : Provider) (event : ProviderEvent) → Link p → Link (provider_step fails p event).0
  unfolding provider_step
  provider_step-Link p (socket_event event) k = socket_event-Link fails event p k
  provider_step-Link p got_token k = token_arrived-Link p k
  provider_step-Link p no_token k = token_failed-Link p k
  provider_step-Link p reconnect_fired k = timer_fired-Link p k
  provider_step-Link p throttle_due k = throttle_fired-Link p k
  provider_step-Link p (doc_updated own body) k = k
  provider_step-Link p (awareness_changed own changed) k =
      if-elim (λ (r : Result). Link r.0) (own || p.destroyed) k (on_awareness-Link changed p k)
  provider_step-Link p (destroy_called client) k = destroy-Link client p k

  pub run_provider-kept :
      (p : Provider) (events : List ProviderEvent) → Link p → Link (run_provider fails p events).0
  unfolding run_provider
  run_provider-kept p [] k = k
  run_provider-kept p (event ∷ events) k =
      run_provider-kept (provider_step fails p event).0 events (provider_step-Link p event k)

  -- Whatever happens to a provider that was created and connects, in any order: it waits for exactly one
  -- thing, an event of its socket, the token or the timer of the next attempt, until a terminal close
  -- stops it or it is destroyed; then it is closed, without a socket and without a timer.
  pub run_provider-Link :
      (throttled : Bool) (events : List ProviderEvent)
      → Link (run_provider fails (connect (new_provider throttled)).0 events).0
  run_provider-Link throttled events =
      run_provider-kept (connect (new_provider throttled)).0 events
        (connect-Link (new_provider throttled) refl refl refl refl)
