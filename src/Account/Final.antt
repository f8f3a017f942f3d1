-- ===== src/Account/Final.antt =====
-- src/adapters/copilot-account.mjs: a sign-in that was cancelled never ends in another way.
use floe_runtime.Prelude.{
  ℕ, ◌+◌, ◌≤◌, ◌≡◌, refl, sym, subst, Bool, true, false, Option, none, some, if◌then◌else◌, List,
  [], ◌∷◌, ◌++◌, ◌&&◌, arith, nat_eq, ltb, every, find, length,
}
use package.floe_runtime.Account.State.{Authentication}
use package.floe_runtime.Account.Operation.{
  Provider, Mode, sdk, Operation, Effect, published, spawned, killed, disconnected, stopped,
  flow_cancelled, flow_advanced, page_opened, Did, Outcome, Status, was_cancelled, finish,
  is_finished,
}
use package.floe_runtime.Account.Flow.{new_operation, last_status, cancel_operation}
use package.floe_runtime.Account.SignIn.{
  SignIns, change, on_operation, begin, lookup, live, unfinished, is_active, settle, settle_with,
  settle_found, forget_outcome, last_event, cancel_sign_in, any_active, cancel_live, kept_or,
}
use package.floe_runtime.Account.Quiet.{is_last, is_quiet}
use package.floe_runtime.Account.History.{Happening, happens, cancels, ends, Reached}
use package.floe_runtime.Account.Once.{
  PublishesNoEnd, Tally, due, ends-quiet, find-id, change-quiet,
}
use package.floe_runtime.Account.QuietFlow.{cancel_operation-quiet}
use package.floe_runtime.Account.Cancelling.{Stays, is_cancelled, ends_cancelled, due_of}
use package.floe_runtime.Account.Invariant.{reached-Tallied, happens-keeps}

abbrev is_other_end : Status → Bool
is_other_end was_cancelled = false
is_other_end s = is_last s

-- How often an end that is no cancellation has been published of an operation.
abbrev pub other_ends : ℕ → List Effect → ℕ
other_ends i [] = 0
other_ends i (published j p s m x ∷ es) =
    (if nat_eq j i && is_other_end s then 1 else 0) + other_ends i es
other_ends i (e ∷ es) = other_ends i es

other_ends-le : (i : ℕ) (es : List Effect) → other_ends i es ≤ ends i es
other_ends-le i [] = omega arith
other_ends-le i (published j p was_cancelled m x ∷ es) = ground (arith, other_ends-le i es)
other_ends-le i (published j p s m x ∷ es) = ground (arith, other_ends-le i es)
other_ends-le i (spawned j ∷ es) = other_ends-le i es
other_ends-le i (killed j ∷ es) = other_ends-le i es
other_ends-le i (disconnected j ∷ es) = other_ends-le i es
other_ends-le i (stopped j ∷ es) = other_ends-le i es
other_ends-le i (flow_cancelled j f ∷ es) = other_ends-le i es
other_ends-le i (flow_advanced j f ∷ es) = other_ends-le i es
other_ends-le i (page_opened j f ∷ es) = other_ends-le i es

other_ends-append :
    (i : ℕ) (es fs : List Effect) → other_ends i (es ++ fs) ≡ other_ends i es + other_ends i fs
other_ends-append i [] fs = omega arith
other_ends-append i (published j p s m x ∷ es) fs = omega (arith, other_ends-append i es fs)
other_ends-append i (spawned j ∷ es) fs = other_ends-append i es fs
other_ends-append i (killed j ∷ es) fs = other_ends-append i es fs
other_ends-append i (disconnected j ∷ es) fs = other_ends-append i es fs
other_ends-append i (stopped j ∷ es) fs = other_ends-append i es fs
other_ends-append i (flow_cancelled j f ∷ es) fs = other_ends-append i es fs
other_ends-append i (flow_advanced j f ∷ es) fs = other_ends-append i es fs
other_ends-append i (page_opened j f ∷ es) fs = other_ends-append i es fs

other_ends-quiet : (i : ℕ) (es : List Effect) → every is_quiet es ≡ true → other_ends i es ≡ 0
other_ends-quiet i es h = omega (arith, other_ends-le i es, ends-quiet i es h)

abbrev cancelled_in : Option Operation → Bool
cancelled_in none = false
cancelled_in (some op) = ends_cancelled op

change-cancelled :
    (f : Operation → Did) (i j : ℕ) (ops : List Operation)
    → Stays f
    → cancelled_in (find (λ op. nat_eq op.id i) ops) ≡ true
    → cancelled_in (find (λ op. nat_eq op.id i) (change f j ops).0) ≡ true
change-cancelled f i j [] k h = cc
change-cancelled f i j (op ∷ ops) k h = ground (arith, k op, change-cancelled f i j ops k)

-- An operation that was made, is cancelled, and has ended in no other way.
pub record Final (i : ℕ) (s : SignIns) : Type 0 where
  pub made : ltb i s.next ≡ true
  pub gone : cancelled_in (lookup i s) ≡ true
  pub no_other : other_ends i s.effects ≡ 0

on_operation-Final :
    (i : ℕ) (f : Operation → Did) (j : ℕ) (s : SignIns)
    → PublishesNoEnd f
    → Stays f
    → Final i s
    → Final i (on_operation f j s)
unfolding on_operation
on_operation-Final i f j s q k h = record {
  made = h.made;
  gone = change-cancelled f i j s.store k h.gone;
  no_other = omega (
    arith,
    h.no_other,
    other_ends-append i s.effects (change f j s.store).1,
    other_ends-quiet i (change f j s.store).1 (change-quiet f j s.store q),
  );
}

begin-Final :
    (i : ℕ) (p : Provider) (m : Mode) (b : Bool) (f : Operation → Did) (s : SignIns)
    → any_active s.active ≡ false
    → PublishesNoEnd f
    → Stays f
    → Final i s
    → Final i (begin p m b f s)
begin-Final i p m b f s free q k h = record {
  made = ground (arith, h.made);
  gone = ground (arith, h.gone, h.made, k (new_operation s.next p m b));
  no_other = omega (
    arith,
    h.no_other,
    other_ends-append i s.effects (f (new_operation s.next p m b)).1,
    other_ends-quiet i (f (new_operation s.next p m b)).1 (q (new_operation s.next p m b)),
  );
}

cancelled_end :
    (i : ℕ) (m : Mode) (o : Outcome) (a : Authentication)
    → is_cancelled (some o) ≡ true
    → is_other_end (last_status m o a) ≡ false
unfolding last_status
cancelled_end i m o a h = ground arith

forget-cancelled :
    (i j : ℕ) (op : Operation) (o : Outcome) (os : List Outcome) (ops : List Operation)
    → find (λ q. nat_eq q.id j) ops ≡ some op
    → op.awaiting ≡ o ∷ os
    → cancelled_in (find (λ q. nat_eq q.id i) ops) ≡ true
    → (cancelled_in (find (λ q. nat_eq q.id i) (change (forget_outcome os) j ops).0) ≡ true)
      × (nat_eq j i ≡ true → is_cancelled (some o) ≡ true)
forget-cancelled i j op o os [] h k c = cc
forget-cancelled i j op o os (q ∷ ops) h k c = ground (arith, forget-cancelled i j op o os ops)

settle_with-Final :
    (i j : ℕ) (a : Authentication) (s : SignIns) (op : Operation) (os : List Outcome)
    → lookup j s ≡ some op
    → op.awaiting ≡ os
    → Final i s
    → Final i (settle_with j a op os s)
settle_with-Final i j a s op [] e k h = h
settle_with-Final i j a s op (o ∷ os) e k h =
    let (still, same) = forget-cancelled i j op o os s.store e k h.gone in
    record {
      made = h.made;
      gone = still;
      no_other = grind (
        arith,
        h.no_other,
        same,
        find-id j s.store op e,
        other_ends-append i s.effects (last_event op o a ∷ []),
        cancelled_end i op.mode o a,
      );
    }

settle_found-Final :
    (i j : ℕ) (a : Authentication) (s : SignIns) (found : Option Operation)
    → lookup j s ≡ found
    → Final i s
    → Final i (settle_found j a found s)
settle_found-Final i j a s none e h = h
settle_found-Final i j a s (some op) e h = settle_with-Final i j a s op op.awaiting e refl h

settle-Final : (i j : ℕ) (a : Authentication) (s : SignIns) → Final i s → Final i (settle j a s)
unfolding settle
settle-Final i j a s h = settle_found-Final i j a s (lookup j s) refl h

happens-Final : (i : ℕ) (e : Happening) (s : SignIns) → Final i s → Final i (happens e s)
happens-Final i = happens-keeps (Final i) (on_operation-Final i) (begin-Final i) (settle-Final i)

-- What happens after, in order.
abbrev pub happen_all : List Happening → SignIns → SignIns
happen_all [] s = s
happen_all (e ∷ es) s = happen_all es (happens e s)

happen_all-Final :
    (i : ℕ) (es : List Happening) (s : SignIns) → Final i s → Final i (happen_all es s)
happen_all-Final i [] s h = h
happen_all-Final i (e ∷ es) s h = happen_all-Final i es (happens e s) (happens-Final i e s h)

nothing_due : (os : List Outcome) → 1 + length os ≤ 1 → os ≡ []
nothing_due [] h = refl
nothing_due (o ∷ os) h = absurd (omega arith)

change-cancels :
    (i : ℕ) (ops : List Operation) (op : Operation)
    → find (λ o. nat_eq o.id i) ops ≡ some op
    → is_finished op ≡ false
    → op.mode ≡ sdk
    → due_of op ≤ 1
    → cancelled_in (find (λ o. nat_eq o.id i) (change cancel_operation i ops).0) ≡ true
unfolding cancel_operation finish
change-cancels i [] op h u m d = cc
change-cancels i (o ∷ ops) op h u m d =
    ground (arith, change-cancels i ops op, nothing_due o.awaiting)

unfinished-is_finished :
    (o : Option Operation) (op : Operation)
    → unfinished o ≡ some op
    → (o ≡ some op) × (is_finished op ≡ false)
unfinished-is_finished none op h = cc
unfinished-is_finished (some o) op h = ground arith

live-lookup :
    (i : ℕ) (s : SignIns) (op : Operation)
    → live i s ≡ some op
    → (is_active i s.active ≡ true) × ((lookup i s ≡ some op) × (is_finished op ≡ false))
live-lookup i s op h = ground (arith, unfinished-is_finished (lookup i s) op)

cancelled-Final :
    (i : ℕ) (s : SignIns) (op : Operation)
    → Tally s i
    → live i s ≡ some op
    → op.mode ≡ sdk
    → Final i (on_operation cancel_operation i s)
unfolding on_operation
cancelled-Final i s op h l m =
    let (act, (look, running)) = live-lookup i s op l in
    let tally =
      subst (λ o. ends i s.effects + due o ≡ (if ltb i s.next then 1 else 0)) look h.one_end in
    record {
      made = ground (arith, tally, running);
      gone = change-cancels i s.store op look running m (ground (arith, tally));
      no_other = ground (
        arith,
        tally,
        running,
        other_ends-le i s.effects,
        other_ends-append i s.effects (change cancel_operation i s.store).1,
        other_ends-quiet i (change cancel_operation i s.store).1
            (change-quiet cancel_operation i s.store cancel_operation-quiet),
      );
    }

-- Cancelling a sign-in of the SDK that is in progress publishes of it, whatever happens then, no end but
-- the cancellation.
pub cancel_sign_in-Final :
    (i : ℕ) (s : SignIns) (op : Operation) (es : List Happening)
    → Reached s
    → live i s ≡ some op
    → op.mode ≡ sdk
    → other_ends i (happen_all es (happens (cancels i) s)).effects ≡ 0
unfolding happens cancel_sign_in
cancel_sign_in-Final i s op es r l m =
    (happen_all-Final i es (happens (cancels i) s) (
      subst (λ o. Final i (kept_or s (cancel_live i o s))) (sym l)
        (cancelled-Final i s op (reached-Tallied s r i) l m))).no_other
