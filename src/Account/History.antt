-- ===== src/Account/History.antt =====
-- src/adapters/copilot-account.mjs: the histories of an account's sign-ins: what applications ask for and
-- what the SDK, the browser and the CLI answer, in any order.
use floe_runtime.Prelude.{
  ℕ, ◌+◌, ◌≡◌, String, Bool, Option, List, [], ◌∷◌, if◌then◌else◌, nat_eq, ltb, ◌&&◌,
}
use package.floe_runtime.Account.State.{Authentication}
use package.floe_runtime.Account.Operation.{Step, Effect, published, advanced}
use package.floe_runtime.Account.Flow.{
  child_spawned, child_failed, child_exited, client_made, client_started, session_made, begun,
  page_opens, Answer,
}
use package.floe_runtime.Account.SignIn.{
  SignIns, no_sign_ins, on_operation, Request, sign_in, continue_sign_in, cancel_sign_in, close,
  settle, kept_or,
}
use package.floe_runtime.Account.Quiet.{is_last}

pub data Happening : Type 0 where
  asks : Request → Happening
  answers : ℕ → Answer → Happening
  cancels child_spawns child_fails : ℕ → Happening
  child_exits : ℕ → Option ℕ → Happening
  client_comes client_starts session_comes page_answers : ℕ → Bool → Happening
  flow_begins : ℕ → Option (String × Step) → Happening
  flow_advances : ℕ → Option Step → Happening
  checked : ℕ → Authentication → Happening
  closes : Happening

-- A call that throws changes nothing.
unfoldable pub happens : Happening → SignIns → SignIns
unfolding sign_in continue_sign_in cancel_sign_in close settle on_operation
happens (asks r) s = kept_or s (sign_in r s)
happens (answers i a) s = kept_or s (continue_sign_in i a s)
happens (cancels i) s = kept_or s (cancel_sign_in i s)
happens (child_spawns i) s = on_operation child_spawned i s
happens (child_fails i) s = on_operation child_failed i s
happens (child_exits i c) s = on_operation (child_exited c) i s
happens (client_comes i b) s = on_operation (client_made b) i s
happens (client_starts i b) s = on_operation (client_started b) i s
happens (session_comes i b) s = on_operation (session_made b) i s
happens (page_answers i b) s = on_operation (page_opens b) i s
happens (flow_begins i a) s = on_operation (begun a) i s
happens (flow_advances i a) s = on_operation (advanced a) i s
happens (checked i a) s = settle i a s
happens closes s = close s

-- The states that a history reaches.
pub data Reached : SignIns → Type 0 where
  at_first : Reached no_sign_ins
  then_happens : {s : SignIns} → (h : Happening) → Reached s → Reached (happens h s)

-- How often an operation's end has been published, and whether it is in the map.
abbrev pub ends : ℕ → List Effect → ℕ
ends i [] = 0
ends i (published j p st m x ∷ es) = (if nat_eq j i && is_last st then 1 else 0) + ends i es
ends i (e ∷ es) = ends i es

abbrev pub held : ℕ → List ℕ → ℕ
held i [] = 0
held i (j ∷ js) = (if nat_eq j i then 1 else 0) + held i js

-- Each operation that was made is in the map, or its end has been published, once.
abbrev pub EndsOnce : SignIns → Type 0
EndsOnce s = (i : ℕ) → ends i s.effects + held i s.active ≡ (if ltb i s.next then 1 else 0)
