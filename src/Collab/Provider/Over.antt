-- ===== src/Collab/Provider/Over.antt =====
-- InkstaveWsProvider.ts: a provider that is over.
use inkstave.Prelude.{
  ℕ, ◌≡◌, refl, sym, ap, ◌⊎◌, inl, inr, Bool, true, false, ◌||◌, none, List, [], ◌∷◌, ◌++◌,
  if◌then◌else◌, if-split, if-elim, subst, all, arith, Bool-cases,
}
use inkstave.Collab.Throttle.{ThrottleState, wrapped, run_timer, cancel}
use inkstave.Collab.Provider.{
  Provider, ProviderCall, Frame, NoArgs, no_args, Bytes, closed, status_changed, synced_changed,
  connection_error, is_some, set_status, schedule_reconnect, take_token, token_arrived,
  token_failed, timer_fired, send, send_awareness, flush_pending, on_awareness, throttle_fired,
  destroy, close_socket, add_ids, SocketEvent, on_socket, ProviderEvent, socket_event, got_token,
  no_token, reconnect_fired, throttle_due, doc_updated, awareness_changed, destroy_called, update,
  awareness_update, provider_step, run_provider, same_status,
}

abbrev pub Result : Type 0
Result = Provider × List ProviderCall

-- Nothing is sent, no socket is made or closed, and the status does not change.
abbrev pub is_quiet : ProviderCall → Bool
is_quiet synced_changed = true
is_quiet connection_error = true
is_quiet _ = false

-- Destroyed or stopped, closed, with nothing that could bring it back.
pub data Over (p : Provider) : Type 0 where
  over :
      (e : (p.destroyed || p.stopped) ≡ true) (w : p.ws ≡ none) (t : p.reconnect_timer ≡ none)
      (a : (p.destroyed ≡ true) ⊎ (p.awaits_token ≡ false)) (c : p.status ≡ closed)
      → Over p

abbrev pub IsQuiet : Result → Type 0
IsQuiet r = Over r.0 × (all is_quiet r.1 ≡ true)

either_or : (a b c : Bool) → (a || b) ≡ true → (a || b || c) ≡ true
either_or true b c e = refl
either_or false true c e = refl
either_or false false c e = ground (arith, e)

pub either_true : (b : Bool) → (b || true) ≡ true
either_true true = refl
either_true false = refl

schedule_reconnect-Over : (p : Provider) → Over p → Over (schedule_reconnect p)
unfolding schedule_reconnect
schedule_reconnect-Over p (over e w t a c) =
    if-split Over (p.destroyed || p.stopped || is_some p.reconnect_timer) (λ _. over e w t a c)
      (λ k. ground (arith, k, either_or p.destroyed p.stopped (is_some p.reconnect_timer) e))

set_status-IsQuiet : (p : Provider) → Over p → IsQuiet (set_status closed p)
unfolding set_status
set_status-IsQuiet p (over e w t a c) =
    subst
      (λ s. IsQuiet (
        if same_status s closed
        then (p, [])
        else (record p { status = closed }, status_changed closed ∷ [])))
      (sym c) (over e w t a c, refl)

take_token-IsQuiet :
    (b d : Bool) (p : Provider)
    → (d ≡ true) ⊎ (b ≡ false)
    → p.destroyed ≡ d
    → Over p
    → IsQuiet (take_token b d p)
unfolding take_token
take_token-IsQuiet false d p k e o = (o, refl)
take_token-IsQuiet true true p k e (over f w t a c) = (over f w t (inl e) c, refl)
take_token-IsQuiet true false p (inl k) e o = ground (arith, k)
take_token-IsQuiet true false p (inr k) e o = ground (arith, k)

unasked : (p : Provider) → Over p → Over (record p { awaits_token = false })
unasked p (over e w t a c) = over e w t (inr refl) c

Over-pending :
    (p : Provider) (ids : List ℕ) (throttle : ThrottleState NoArgs)
    → Over p
    → Over (record p { pending_awareness = ids; flush_awareness = throttle })
Over-pending p ids throttle (over e w t a c) = over e w t a c

has_no_socket : (p : Provider) → Over p → p.ws ≡ none
has_no_socket p (over e w t a c) = w

all-both :
    (xs ys : List ProviderCall)
    → all is_quiet xs ≡ true
    → all is_quiet ys ≡ true
    → all is_quiet (xs ++ ys) ≡ true
all-both [] ys h k = k
all-both (x ∷ xs) ys h k = elim (Bool-cases (is_quiet x)) [
  | inl e ↦ rw e (all-both xs ys (rw e at h) k)
  | inr e ↦ ground (arith, rw e at h)
]

module _ (fails : Frame → Bool) where
  send_awareness-none :
      (ids : List ℕ) (p : Provider) → p.ws ≡ none → send_awareness fails ids p ≡ []
  unfolding send_awareness send
  send_awareness-none [] p w = refl
  send_awareness-none (id ∷ ids) p w = ap (λ x. send fails x (awareness_update (id ∷ ids))) w

  flush_pending-IsQuiet :
      (calls : List NoArgs) (p : Provider) → Over p → IsQuiet (flush_pending fails calls p)
  unfolding flush_pending
  flush_pending-IsQuiet [] p o = (o, refl)
  flush_pending-IsQuiet (call ∷ calls) p o =
      let later =
        flush_pending-IsQuiet calls (record p { pending_awareness = [] })
          (Over-pending p [] p.flush_awareness o) in
      (later.0, rw (send_awareness-none p.pending_awareness p (has_no_socket p o)) later.1)

  on_awareness-IsQuiet :
      (changed : List ℕ) (p : Provider) → Over p → IsQuiet (on_awareness fails changed p)
  unfolding on_awareness
  on_awareness-IsQuiet changed p o =
      let (throttle, calls) = wrapped no_args p.flush_awareness in
      let ids = add_ids changed p.pending_awareness in
      if-elim IsQuiet p.is_throttled
        (flush_pending-IsQuiet calls
          (record p { pending_awareness = ids; flush_awareness = throttle })
          (Over-pending p ids throttle o))
        (o, ap (all is_quiet) (send_awareness-none changed p (has_no_socket p o)))

  throttle_fired-IsQuiet : (p : Provider) → Over p → IsQuiet (throttle_fired fails p)
  unfolding throttle_fired
  throttle_fired-IsQuiet p o =
      let (throttle, calls) = run_timer p.flush_awareness in
      if-elim IsQuiet p.flush_awareness.timer
        (flush_pending-IsQuiet calls (record p { flush_awareness = throttle })
          (Over-pending p p.pending_awareness throttle o))
        (o, refl)

  destroy-IsQuiet : (client : ℕ) (p : Provider) → Over p → IsQuiet (destroy fails client p)
  unfolding destroy
  destroy-IsQuiet client p (over e w t a c) =
      let gone : Provider = record p {
        destroyed = true;
        flush_awareness = cancel p.flush_awareness;
        reconnect_timer = none;
        ws = none;
      } in
      let (o, q) = set_status-IsQuiet gone (over refl refl refl (inl refl) c) in
      if-elim IsQuiet p.destroyed (over e w t a c, refl)
        (
          o,
          rw (send_awareness-none (client ∷ []) p w) (
              subst (λ x. all is_quiet (close_socket x ++ (set_status closed gone).1) ≡ true)
                (sym w) q),
        )

  on_socket-IsQuiet :
      (event : SocketEvent) (p : Provider) → Over p → IsQuiet (on_socket fails p.ws event p)
  unfolding on_socket
  on_socket-IsQuiet event p o =
      subst (λ x. IsQuiet (on_socket fails x event p)) (sym (has_no_socket p o)) (o, refl)

  doc_updated-quiet :
      (b : Bool) (body : Bytes) (p : Provider)
      → Over p
      → all is_quiet (if b then [] else send fails p.ws (update body)) ≡ true
  unfolding send
  doc_updated-quiet true body p o = refl
  doc_updated-quiet false body p o =
      ap (λ x. all is_quiet (send fails x (update body))) (has_no_socket p o)

  provider_step-IsQuiet :
      (p : Provider) (event : ProviderEvent) → Over p → IsQuiet (provider_step fails p event)
  unfolding provider_step token_arrived token_failed timer_fired
  provider_step-IsQuiet p (socket_event event) o = on_socket-IsQuiet event p o
  provider_step-IsQuiet p got_token (over e w t a c) =
      take_token-IsQuiet p.awaits_token p.destroyed p a refl (over e w t a c)
  provider_step-IsQuiet p no_token o =
      if-elim IsQuiet p.awaits_token
        (schedule_reconnect-Over (record p { awaits_token = false }) (unasked p o), refl) (o, refl)
  provider_step-IsQuiet p reconnect_fired (over e w t a c) =
      subst (λ x. IsQuiet (timer_fired x p)) (sym t) (over e w t a c, refl)
  provider_step-IsQuiet p throttle_due o = throttle_fired-IsQuiet p o
  provider_step-IsQuiet p (doc_updated own body) o =
      (o, doc_updated-quiet (own || p.destroyed) body p o)
  provider_step-IsQuiet p (awareness_changed own changed) o =
      if-elim IsQuiet (own || p.destroyed) (o, refl) (on_awareness-IsQuiet changed p o)
  provider_step-IsQuiet p (destroy_called client) o = destroy-IsQuiet client p o

  pub run_provider-IsQuiet :
      (p : Provider) (events : List ProviderEvent) → Over p → IsQuiet (run_provider fails p events)
  unfolding run_provider
  run_provider-IsQuiet p [] o = (o, refl)
  run_provider-IsQuiet p (event ∷ events) o =
      let (next, calls) = provider_step-IsQuiet p event o in
      let (last, rest) = run_provider-IsQuiet (provider_step fails p event).0 events next in
      (
        last,
        all-both (provider_step fails p event).1
            (run_provider fails (provider_step fails p event).0 events).1 calls rest,
      )
