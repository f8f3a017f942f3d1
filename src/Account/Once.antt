-- ===== src/Account/Once.antt =====
-- src/adapters/copilot-account.mjs: a sign-in ends once, and no second one starts before.
use floe_runtime.Prelude.{
  ℕ, ◌+◌, ◌≤◌, ◌≡◌, refl, Bool, true, false, Option, none, some, if◌then◌else◌, List, [], ◌∷◌, ◌++◌,
  arith, nat_eq, ltb, every, length, find,
}
use package.floe_runtime.Account.Operation.{
  Provider, Mode, Operation, Effect, published, spawned, killed, disconnected, stopped,
  flow_cancelled, flow_advanced, page_opened, Did, Outcome,
}
use package.floe_runtime.Account.State.{Authentication}
use package.floe_runtime.Account.Flow.{new_operation, last_status}
use package.floe_runtime.Account.SignIn.{
  SignIns, change, on_operation, begin, remove_id, any_active, lookup, forget_outcome, settle,
  settle_with, settle_found, last_event,
}
use package.floe_runtime.Account.Quiet.{is_last, is_quiet, quiet}
use package.floe_runtime.Account.Cancelling.{Stays, due_of}
use package.floe_runtime.Account.History.{ends, held, EndsOnce}

ends-append : (i : ℕ) (es fs : List Effect) → ends i (es ++ fs) ≡ ends i es + ends i fs
ends-append i [] fs = omega arith
ends-append i (published j p s m x ∷ es) fs = omega (arith, ends-append i es fs)
ends-append i (spawned j ∷ es) fs = ends-append i es fs
ends-append i (killed j ∷ es) fs = ends-append i es fs
ends-append i (disconnected j ∷ es) fs = ends-append i es fs
ends-append i (stopped j ∷ es) fs = ends-append i es fs
ends-append i (flow_cancelled j f ∷ es) fs = ends-append i es fs
ends-append i (flow_advanced j f ∷ es) fs = ends-append i es fs
ends-append i (page_opened j f ∷ es) fs = ends-append i es fs

pub ends-quiet : (i : ℕ) (es : List Effect) → every is_quiet es ≡ true → ends i es ≡ 0
ends-quiet i [] h = refl
ends-quiet i (published j p s m x ∷ es) h = ground (arith, ends-quiet i es)
ends-quiet i (spawned j ∷ es) h = ends-quiet i es h
ends-quiet i (killed j ∷ es) h = ends-quiet i es h
ends-quiet i (disconnected j ∷ es) h = ends-quiet i es h
ends-quiet i (stopped j ∷ es) h = ends-quiet i es h
ends-quiet i (flow_cancelled j f ∷ es) h = ends-quiet i es h
ends-quiet i (flow_advanced j f ∷ es) h = ends-quiet i es h
ends-quiet i (page_opened j f ∷ es) h = ends-quiet i es h

-- A step that publishes no end, whatever the operation.
abbrev pub PublishesNoEnd : (Operation → Did) → Type 0
PublishesNoEnd f = (op : Operation) → quiet (f op) ≡ true

pub change-quiet :
    (f : Operation → Did) (i : ℕ) (ops : List Operation)
    → PublishesNoEnd f
    → every is_quiet (change f i ops).1 ≡ true
change-quiet f i [] k = refl
change-quiet f i (op ∷ ops) k = ground (arith, k op, change-quiet f i ops k)

-- How many ends of an operation are still to come.
abbrev pub due : Option Operation → ℕ
due none = 0
due (some op) = due_of op

-- Each operation that was made has published its end or will publish it, and is in the map until then.
pub record Tally (s : SignIns) (i : ℕ) : Type 0 where
  pub one_end : ends i s.effects + due (lookup i s) ≡ (if ltb i s.next then 1 else 0)
  pub in_map : held i s.active ≡ due (lookup i s)

abbrev pub Tallied : SignIns → Type 0
Tallied s = (i : ℕ) → Tally s i

change-due :
    (f : Operation → Did) (i j : ℕ) (ops : List Operation)
    → Stays f
    → due (find (λ op. nat_eq op.id i) (change f j ops).0) ≡ due (find (λ op. nat_eq op.id i) ops)
change-due f i j [] k = refl
change-due f i j (op ∷ ops) k = ground (arith, k op, change-due f i j ops k)

pub on_operation-Tallied :
    (f : Operation → Did) (i : ℕ) (s : SignIns)
    → PublishesNoEnd f
    → Stays f
    → Tallied s
    → Tallied (on_operation f i s)
unfolding on_operation
on_operation-Tallied f i s q k h j = record {
  one_end = omega (
    arith,
    (h j).one_end,
    change-due f j i s.store k,
    ends-append j s.effects (change f i s.store).1,
    ends-quiet j (change f i s.store).1 (change-quiet f i s.store q),
  );
  in_map = omega (arith, (h j).in_map, change-due f j i s.store k);
}

pub begin-Tallied :
    (p : Provider) (m : Mode) (b : Bool) (f : Operation → Did) (s : SignIns)
    → any_active s.active ≡ false
    → PublishesNoEnd f
    → Stays f
    → Tallied s
    → Tallied (begin p m b f s)
begin-Tallied p m b f s free q k h j =
    let first = new_operation s.next p m b in
    let new = f first in
    record {
      one_end = ground (
        arith,
        (h j).one_end,
        k first,
        ends-append j s.effects new.1,
        ends-quiet j new.1 (q first),
      );
      in_map = ground (arith, (h j).in_map, (h j).one_end, k first);
    }

last_status-is_last :
    (m : Mode) (o : Outcome) (a : Authentication) → is_last (last_status m o a) ≡ true
unfolding last_status
last_status-is_last m o a = ground arith

held-remove_id :
    (i j : ℕ) (is : List ℕ) → held j (remove_id i is) ≡ (if nat_eq i j then 0 else held j is)
held-remove_id i j [] = ground arith
held-remove_id i j (k ∷ is) = ground (arith, held-remove_id i j is)

pub find-id :
    (i : ℕ) (ops : List Operation) (op : Operation)
    → find (λ o. nat_eq o.id i) ops ≡ some op
    → op.id ≡ i
find-id i [] op h = cc
find-id i (o ∷ ops) op h = ground (arith, find-id i ops op)

forget-due :
    (i j : ℕ) (op : Operation) (o : Outcome) (os : List Outcome) (ops : List Operation)
    → find (λ q. nat_eq q.id i) ops ≡ some op
    → op.awaiting ≡ o ∷ os
    → due (find (λ q. nat_eq q.id j) (change (forget_outcome os) i ops).0)
        + (if nat_eq i j then 1 else 0)
      ≡ due (find (λ q. nat_eq q.id j) ops)
forget-due i j op o os [] h k = cc
forget-due i j op o os (q ∷ ops) h k = ground (arith, forget-due i j op o os ops)

settle_with-Tallied :
    (i : ℕ) (a : Authentication) (s : SignIns) (op : Operation) (os : List Outcome)
    → lookup i s ≡ some op
    → op.awaiting ≡ os
    → Tallied s
    → Tallied (settle_with i a op os s)
settle_with-Tallied i a s op [] e k h = h
settle_with-Tallied i a s op (o ∷ os) e k h = λ j. record {
  one_end = grind (
    arith,
    (h j).one_end,
    find-id i s.store op e,
    forget-due i j op o os s.store e k,
    ends-append j s.effects (last_event op o a ∷ []),
    last_status-is_last op.mode o a,
  );
  in_map = ground (
    arith,
    (h j).in_map,
    (h j).one_end,
    forget-due i j op o os s.store e k,
    held-remove_id i j s.active,
  );
}

settle_found-Tallied :
    (i : ℕ) (a : Authentication) (s : SignIns) (found : Option Operation)
    → lookup i s ≡ found
    → Tallied s
    → Tallied (settle_found i a found s)
settle_found-Tallied i a s none e h = h
settle_found-Tallied i a s (some op) e h = settle_with-Tallied i a s op op.awaiting e refl h

pub settle-Tallied : (i : ℕ) (a : Authentication) (s : SignIns) → Tallied s → Tallied (settle i a s)
unfolding settle
settle-Tallied i a s h = settle_found-Tallied i a s (lookup i s) refl h

pub Tallied-EndsOnce : (s : SignIns) → Tallied s → EndsOnce s
Tallied-EndsOnce s h i = omega (arith, (h i).one_end, (h i).in_map)

-- At most one operation is active.
abbrev pub Alone : SignIns → Type 0
Alone s = length s.active ≤ 1

pub on_operation-Alone :
    (f : Operation → Did) (i : ℕ) (s : SignIns)
    → PublishesNoEnd f
    → Alone s
    → Alone (on_operation f i s)
unfolding on_operation
on_operation-Alone f i s q h = h

only_new : (i : ℕ) (is : List ℕ) → any_active is ≡ false → length (i ∷ is) ≤ 1
only_new i [] h = omega arith
only_new i (j ∷ is) h = cc

pub begin-Alone :
    (p : Provider) (m : Mode) (b : Bool) (f : Operation → Did) (s : SignIns)
    → any_active s.active ≡ false
    → PublishesNoEnd f
    → Alone s
    → Alone (begin p m b f s)
begin-Alone p m b f s free q h = only_new s.next s.active free

remove_id-length : (i : ℕ) (is : List ℕ) → length (remove_id i is) ≤ length is
remove_id-length i [] = omega arith
remove_id-length i (j ∷ is) = ground (arith, remove_id-length i is)

settle_with-Alone :
    (i : ℕ) (a : Authentication) (s : SignIns) (op : Operation) (os : List Outcome)
    → Alone s
    → Alone (settle_with i a op os s)
settle_with-Alone i a s op [] h = h
settle_with-Alone i a s op (o ∷ os) h = omega (arith, h, remove_id-length i s.active)

settle_found-Alone :
    (i : ℕ) (a : Authentication) (s : SignIns) (found : Option Operation)
    → Alone s
    → Alone (settle_found i a found s)
settle_found-Alone i a s none h = h
settle_found-Alone i a s (some op) h = settle_with-Alone i a s op op.awaiting h

pub settle-Alone : (i : ℕ) (a : Authentication) (s : SignIns) → Alone s → Alone (settle i a s)
unfolding settle
settle-Alone i a s h = settle_found-Alone i a s (lookup i s) h
