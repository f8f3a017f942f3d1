-- ===== src/Runtime.antt =====
-- src/runtime.mjs: the connection of a runtime to its child process, apart from the handshake. The hook
-- `onLost` of an adapter is a parameter.
use floe_runtime.Prelude.{
  ◌≡◌, refl, inl, inr, String, Bool, true, false, Option, none, some, List, [], ◌∷◌, if◌then◌else◌,
  if_both, if_false, ◌==◌, includes, Bool-cases, ap, eq_iff, arith,
}
use floe_runtime.Errors.{RuntimeFault}
use floe_runtime.JsonRpc.Peer.{
  Peer, write_error, reset, respond, respond_error, notify, is_awaiting_response, remove_awaiting,
}

pub record Runtime (V : Type 0) : Type 0 where
  pub ready : Bool
  pub closing : Bool
  pub losing : Bool
  pub peer : Option (Peer V)
  pub lost_emitted : List RuntimeFault

abbrev pub declined : String
declined =
    "No permission policy or listener answered this runtime request in time; it was automatically declined."

removed_awaiting : (ids : List String) (i : String) → includes (remove_awaiting ids i) i ≡ false
unfolding remove_awaiting
removed_awaiting [] i = refl
removed_awaiting (j ∷ js) i = elim (Bool-cases (j == i)) [
  | inl same ↦ rw same (removed_awaiting js i)
  | inr differs ↦ rw (differs, differs) (removed_awaiting js i)
]

remove_awaiting-others :
    (ids : List String) (i j : String)
    → (i == j) ≡ false
    → includes (remove_awaiting ids i) j ≡ includes ids j
unfolding remove_awaiting
remove_awaiting-others [] i j h = refl
remove_awaiting-others (k ∷ ks) i j h =
    ground (arith, h, eq_iff k i, eq_iff k j, eq_iff i j, remove_awaiting-others ks i j h)

module _ {V : Type 0} where
  abbrev reset_peer : RuntimeFault → Option (Peer V) → Option (Peer V)
  reset_peer f none = none
  reset_peer f (some p) = some (reset p f)

  abbrev emit_lost : RuntimeFault → Runtime V → Runtime V
  emit_lost f r = if r.closing then r else record r { lost_emitted = f ∷ r.lost_emitted }

  -- `#lost`: a loss during the handling of a loss is ignored.
  unfoldable pub lost : (Runtime V → Runtime V) → Runtime V → RuntimeFault → Runtime V
  lost on_lost r f =
      if r.losing
      then r
      else record (emit_lost f
          (on_lost (record r { losing = true; ready = false; peer = reset_peer f r.peer }))) {
            losing = false;
          }

  -- `this.peer?.…`
  abbrev on_peer : (Peer V → Peer V) → Runtime V → Option (Peer V) → Runtime V
  on_peer f r none = r
  on_peer f r (some p) = record r { peer = some (f p) }

  unfoldable pub notify_peer : Runtime V → String → V → Runtime V
  notify_peer r method params = on_peer (λ p. notify p method params) r r.peer

  unfoldable pub respond_peer : Runtime V → String → V → Runtime V
  respond_peer r request result = on_peer (λ p. respond p request result) r r.peer

  unfoldable pub respond_error_peer : Runtime V → String → String → Runtime V
  respond_error_peer r request message = on_peer (λ p. respond_error p request message) r r.peer

  abbrev pub decline : String → Peer V → Peer V
  decline request p = if is_awaiting_response p request then respond_error p request declined else p

  -- `#armUnhandledRequestTimeout`, when its timer fires.
  unfoldable pub unhandled_timeout : Runtime V → String → Runtime V
  unhandled_timeout r request = on_peer (decline request) r r.peer

  respond_error-answered :
      (p : Peer V) (i m : String) → is_awaiting_response (respond_error p i m) i ≡ false
  unfolding respond_error is_awaiting_response
  respond_error-answered p i m =
      if_both (λ (q : Peer V). includes q.awaiting_response i ≡ false) p.spawned _ _
        (λ _. removed_awaiting p.awaiting_response i) (λ _. removed_awaiting p.awaiting_response i)

  decline-answered : (p : Peer V) (i : String) → is_awaiting_response (decline i p) i ≡ false
  decline-answered p i =
      if_both (λ (q : Peer V). is_awaiting_response q i ≡ false) (is_awaiting_response p i) _ _
        (λ _. respond_error-answered p i declined) (λ no'. no')

  -- A peer after an unanswered request timed out: if it still awaited its response, the error response is
  -- written to a running child, the request no longer awaits one and every other one still does; else
  -- nothing happens. No pending request of the runtime's own is touched.
  pub record Declined (i : String) (p q : Peer V) : Type 0 where
    pub written :
        is_awaiting_response p i ≡ true
        → p.spawned ≡ true
        → q.actions ≡ write_error i declined ∷ p.actions
    pub gone : is_awaiting_response q i ≡ false
    pub others :
        (j : String)
        → (i == j) ≡ false
        → includes q.awaiting_response j ≡ includes p.awaiting_response j
    pub untouched : is_awaiting_response p i ≡ false → q ≡ p
    pub same_pending : q.pending ≡ p.pending
    pub same_buffer : q.buffer ≡ p.buffer

  decline-Declined : (p : Peer V) (i : String) → Declined i p (decline i p)
  unfolding respond_error is_awaiting_response
  decline-Declined p i = record {
    written = λ a s. rw (a, s) refl;
    gone = unfold is_awaiting_response in decline-answered p i;
    others = λ j d. ground (arith, d, remove_awaiting-others p.awaiting_response i j d);
    untouched = λ a. rw a refl;
    same_pending = ground arith;
    same_buffer = ground arith;
  }

  -- A request that was not answered in time is declined once: the first timeout writes the error response
  -- for it to a child that runs, and takes it, and no other request, from those that await one; if it no
  -- longer awaits one, and at a second timeout, nothing happens.
  pub unhandled_timeout-once :
      (r : Runtime V) (p : Peer V) (i : String)
      → r.peer ≡ some p
      → (q : Peer V) × ((unhandled_timeout r i).peer ≡ some q)
        × Declined i p q
        × ((unhandled_timeout (unhandled_timeout r i) i).peer ≡ some q)
  unfolding unhandled_timeout
  unhandled_timeout-once r p i h = rw h (
    decline i p,
    refl,
    decline-Declined p i,
    ap some (if_false (is_awaiting_response (decline i p) i) _ _ (decline-answered p i)),
  )
