-- ===== src/Account/Invariant.antt =====
-- src/adapters/copilot-account.mjs: what holds of an account's sign-ins after every history.
use floe_runtime.Prelude.{
  ℕ, ◌≤◌, ◌≡◌, String, Bool, false, Option, none, some, if_both, List, [], ◌∷◌, arith, length,
}
use floe_runtime.Errors.{Result, ok, err}
use package.floe_runtime.Account.State.{Authentication}
use package.floe_runtime.Account.Operation.{
  Provider, github, enterprise_cloud, entra, Mode, device, sdk, Operation, Did, advanced,
}
use package.floe_runtime.Account.Flow.{
  child_spawned, child_failed, child_exited, client_made, client_started, session_made, begun,
  page_opens, Answer, start_device, start_sdk, resume, cancel_operation, answer_input,
}
use package.floe_runtime.Account.SignIn.{
  SignIns, no_sign_ins, on_operation, begin, Request, sign_in, continue_sign_in, cancel_sign_in,
  close, settle, kept_or, with_provider, start_sign_in, device_sign_in, provider_of, continue_live,
  close_each, live, any_active, has_unknown_mode, unknown_mode, waits, continue_given,
  continue_mode, cancel_live,
}
use package.floe_runtime.Account.Quiet.{advanced-quiet}
use package.floe_runtime.Account.QuietFlow.{
  cancel_operation-quiet, start_device-quiet, child_spawned-quiet, child_failed-quiet,
  child_exited-quiet, start_sdk-quiet, client_made-quiet, client_started-quiet, session_made-quiet,
  begun-quiet, page_opens-quiet, resume-quiet,
}
use package.floe_runtime.Account.Cancelling.{
  Stays, cancel_operation-Stays, child_spawned-Stays, child_failed-Stays, child_exited-Stays,
  client_made-Stays, client_started-Stays, session_made-Stays, begun-Stays, page_opens-Stays,
  resume-Stays, advanced-Stays, start_device-Stays, start_sdk-Stays,
}
use package.floe_runtime.Account.History.{
  Happening, asks, answers, cancels, child_spawns, child_fails, child_exits, client_comes,
  client_starts, session_comes, page_answers, flow_begins, flow_advances, checked, closes, happens,
  Reached, at_first, then_happens, EndsOnce,
}
use package.floe_runtime.Account.Once.{
  PublishesNoEnd, Alone, on_operation-Alone, begin-Alone, settle-Alone, Tallied,
  on_operation-Tallied, begin-Tallied, settle-Tallied, Tallied-EndsOnce,
}

-- A property that holds of a state and that the changes of one operation, a new operation while none is
-- active, and the end of an operation preserve.
module _ (P : SignIns → Type 0)
    (on_one : (f : Operation → Did) (i : ℕ) (s : SignIns)
      → PublishesNoEnd f
      → Stays f
      → P s
      → P (on_operation f i s))
    (on_new : (p : Provider) (m : Mode) (b : Bool) (f : Operation → Did) (s : SignIns)
      → any_active s.active ≡ false
      → PublishesNoEnd f
      → Stays f
      → P s
      → P (begin p m b f s))
    (on_end : (i : ℕ) (a : Authentication) (s : SignIns) → P s → P (settle i a s)) where
  module _ (s : SignIns) (h : P s) where
    abbrev Kept : Result SignIns → Type 0
    Kept r = P (kept_or s r)

    device_sign_in-Kept :
        (r : Request) (p : Provider) → any_active s.active ≡ false → Kept (device_sign_in r p s)
    device_sign_in-Kept r github free =
        if_both Kept r.has_cli _ _
          (λ c.
            on_new github device false (start_device r.cancels r.starts) s free
              (start_device-quiet r.cancels r.starts) (start_device-Stays r.cancels r.starts) h)
          (λ c. h)
    device_sign_in-Kept r enterprise_cloud free = h
    device_sign_in-Kept r entra free = h

    start_sign_in-Kept : (r : Request) (p : Provider) → Kept (start_sign_in r p s)
    start_sign_in-Kept r p =
        if_both Kept (any_active s.active) _ _ (λ busy. h)
          (λ free.
            if_both Kept _ (device_sign_in r p s)
              (ok (begin p sdk r.browse (start_sdk r.cancels) s))
              (λ d. device_sign_in-Kept r p free)
              (λ d.
                on_new p sdk r.browse (start_sdk r.cancels) s free (start_sdk-quiet r.cancels)
                  (start_sdk-Stays r.cancels) h))

    with_provider-Kept : (r : Request) (o : Option Provider) → Kept (with_provider r o s)
    with_provider-Kept r none = h
    with_provider-Kept r (some p) = start_sign_in-Kept r p

    sign_in-Kept : (r : Request) → Kept (sign_in r s)
    unfolding sign_in
    sign_in-Kept r =
        if_both Kept (has_unknown_mode r.mode) (unknown_mode r)
          (with_provider r (provider_of r.provider) s) (λ u. h)
          (λ u. with_provider-Kept r (provider_of r.provider))

    continue_given-Kept : (i : ℕ) (g : Result (Option String)) → Kept (continue_given i g s)
    continue_given-Kept i (err e) = h
    continue_given-Kept i (ok given) =
        on_one (resume given) i s (resume-quiet given) (resume-Stays given) h

    continue_mode-Kept :
        (i : ℕ) (a : Answer) (op : Operation) (m : Mode) → Kept (continue_mode i a op m s)
    continue_mode-Kept i a op device = h
    continue_mode-Kept i a op sdk =
        if_both Kept op.advancing waits (continue_given i (answer_input op.pending a) s) (λ busy. h)
          (λ free. continue_given-Kept i (answer_input op.pending a))

    continue_live-Kept : (i : ℕ) (a : Answer) (o : Option Operation) → Kept (continue_live i a o s)
    continue_live-Kept i a none = h
    continue_live-Kept i a (some op) = continue_mode-Kept i a op op.mode

    continue_sign_in-Kept : (i : ℕ) (a : Answer) → Kept (continue_sign_in i a s)
    unfolding continue_sign_in
    continue_sign_in-Kept i a = continue_live-Kept i a (live i s)

    cancel_live-Kept : (i : ℕ) (o : Option Operation) → Kept (cancel_live i o s)
    cancel_live-Kept i none = h
    cancel_live-Kept i (some op) =
        on_one cancel_operation i s cancel_operation-quiet cancel_operation-Stays h

    pub cancel_sign_in-Kept : (i : ℕ) → Kept (cancel_sign_in i s)
    unfolding cancel_sign_in
    cancel_sign_in-Kept i = cancel_live-Kept i (live i s)

  close_each-keeps : (is : List ℕ) (s : SignIns) → P s → P (close_each is s)
  close_each-keeps [] s h = h
  close_each-keeps (i ∷ is) s h =
      close_each-keeps is (kept_or s (cancel_sign_in i s)) (cancel_sign_in-Kept s h i)

  pub happens-keeps : (e : Happening) (s : SignIns) → P s → P (happens e s)
  unfolding happens close
  happens-keeps (asks r) s h = sign_in-Kept s h r
  happens-keeps (answers i a) s h = continue_sign_in-Kept s h i a
  happens-keeps (cancels i) s h = cancel_sign_in-Kept s h i
  happens-keeps (child_spawns i) s h =
      on_one child_spawned i s child_spawned-quiet child_spawned-Stays h
  happens-keeps (child_fails i) s h =
      on_one child_failed i s child_failed-quiet child_failed-Stays h
  happens-keeps (child_exits i c) s h =
      on_one (child_exited c) i s (child_exited-quiet c) (child_exited-Stays c) h
  happens-keeps (client_comes i b) s h =
      on_one (client_made b) i s (client_made-quiet b) (client_made-Stays b) h
  happens-keeps (client_starts i b) s h =
      on_one (client_started b) i s (client_started-quiet b) (client_started-Stays b) h
  happens-keeps (session_comes i b) s h =
      on_one (session_made b) i s (session_made-quiet b) (session_made-Stays b) h
  happens-keeps (page_answers i b) s h =
      on_one (page_opens b) i s (page_opens-quiet b) (page_opens-Stays b) h
  happens-keeps (flow_begins i a) s h = on_one (begun a) i s (begun-quiet a) (begun-Stays a) h
  happens-keeps (flow_advances i a) s h =
      on_one (advanced a) i s (advanced-quiet a) (advanced-Stays a) h
  happens-keeps (checked i a) s h = on_end i a s h
  happens-keeps closes s h = close_each-keeps s.active s h

  reached-keeps : P no_sign_ins → (s : SignIns) → Reached s → P s
  reached-keeps z _ at_first = z
  reached-keeps z _ (then_happens {s = s} e r) = happens-keeps e s (reached-keeps z s r)

pub record Sound (s : SignIns) : Type 0 where
  pub once : EndsOnce s
  pub alone : length s.active ≤ 1

pub reached-Tallied : (s : SignIns) → Reached s → Tallied s
reached-Tallied =
    reached-keeps Tallied on_operation-Tallied begin-Tallied settle-Tallied
      (λ i. record { one_end = ground arith; in_map = omega arith })

-- After every history, each sign-in that was started is in the map of active ones or has published one
-- end, never both and never two, no id beyond the last one made has either, and at most one sign-in is
-- active.
pub reached-Sound : (s : SignIns) → Reached s → Sound s
reached-Sound s r = record {
  once = Tallied-EndsOnce s (reached-Tallied s r);
  alone =
      reached-keeps Alone (λ f i t q k. on_operation-Alone f i t q)
        (λ p m b f t free q k. begin-Alone p m b f t free q) settle-Alone (omega arith) s r;
}
