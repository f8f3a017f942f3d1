-- ===== src/Codex/Server.antt =====
-- src/adapters/codex.mjs: what the adapter asks its server for apart from turns: the models page by page,
-- resuming a thread with its goal, and releasing threads that nobody uses. The server's answers are
-- parameters.
use floe_runtime.Prelude.{
  ℕ, String, Bool, true, false, not, Option, none, some, or_else, if◌then◌else◌, List, [], ◌∷◌,
  ◌++◌, ◌&&◌, includes, is_some, ltb,
}
use floe_runtime.Prelude.Map
use floe_runtime.Prelude.Map.{Map}
use floe_runtime.Errors.{RuntimeFault, Result, ok, err, fault}
use package.floe_runtime.Codex.Threads.{Session, Threads, put_session}

-- A page of `model/list`: its data, if that is a list, and the next cursor, if it is not empty.
pub record ModelPage : Type 0 where
  pub entries : Option (List String)
  pub next : Option String

abbrev models_unavailable : String → RuntimeFault
models_unavailable m = fault "models_unavailable" m 502

abbrev entries_of : Option (List String) → Result (List String)
entries_of none = err (models_unavailable "Codex did not return its available models.")
entries_of (some es) = ok es

abbrev new_cursor : List String → Option String → Result (List String)
new_cursor seen none = ok seen
new_cursor seen (some c) =
    if includes seen c
    then err (models_unavailable "Codex repeated a model page.")
    else ok (seen ++ c ∷ [])

-- `models`, by the answers of the server one after the other; nothing, where it has not answered yet.
unfoldable pub models :
    List (Result ModelPage) → List String → List String → Option (Result (List String))
models [] seen found = none
models (err e ∷ ps) seen found = some (err e)
models (ok p ∷ ps) seen found = elim (entries_of p.entries) [
  | err e ↦ some (err e)
  | ok es ↦ elim (new_cursor seen p.next) [
    | err e ↦ some (err e)
    | ok later ↦
        (let rest = models ps later (found ++ es) in
          if is_some p.next then rest else some (ok (found ++ es)))
  ]
]

-- What `resume` publishes; the payloads are left out.
pub data Notice : Type 0 where
  replay goal_reapplied goal_failed : (thread : String) → Notice
  replay_complete : (thread : String) → Notice

pub record Resuming : Type 0 where
  pub threads : Threads
  pub goals : Map String
  pub notices : List Notice

abbrev register : String → Resuming → Resuming
register i s = record s {
  threads = put_session i (record { key = none; stopped = true }) s.threads;
  notices = s.notices ++ replay i ∷ [];
}

abbrev reapply : String → Option String → Result (Unit {0}) → Resuming → Resuming
reapply i none answer s = s
reapply i (some goal) (ok u) s = record s {
  goals = Map.set s.goals i goal;
  notices = s.notices ++ goal_reapplied i ∷ [];
}
reapply i (some goal) (err e) s = record s { notices = s.notices ++ goal_failed i ∷ [] }

abbrev finish_replay : String → Resuming → Resuming
finish_replay i s = record s { notices = s.notices ++ replay_complete i ∷ [] }

-- The goal to set again: the caller's, which may be none on purpose, or the one that is remembered.
abbrev goal_for : Option (Option String) → Option String → Option String
goal_for none remembered = remembered
goal_for (some given) remembered = given

-- `resume`: the server may give the thread another id; the goal that it forgets is set again.
unfoldable pub resume :
    String
    → Option (Option String)
    → Result (Option String)
    → Result (Unit {0})
    → Resuming
    → Resuming × Result String
resume i given (err e) sets s = (finish_replay i s, err e)
resume i given (ok other) sets s =
    let j = or_else other i in
    (finish_replay i (reapply j (goal_for given (Map.get s.goals i)) sets (register j s)), ok j)

-- A thread of `thread/list` with the time of its last activity, if that is known.
pub record Listed : Type 0 where
  pub id : String
  pub active_at : Option ℕ

abbrev is_old : ℕ → Option ℕ → Bool
is_old cutoff none = false
is_old cutoff (some t) = not (ltb cutoff t)

abbrev pub may_sweep : Map Session → ℕ → Listed → Bool
may_sweep sessions cutoff t = not (Map.has sessions t.id) && is_old cutoff t.active_at

-- `sweepOrphans`: which threads are released, by whether the server lets each go.
unfoldable pub sweep : Map Session → ℕ → (String → Bool) → List Listed → List String
sweep sessions cutoff releases [] = []
sweep sessions cutoff releases (t ∷ ts) =
    let rest = sweep sessions cutoff releases ts in
    if may_sweep sessions cutoff t && releases t.id then t.id ∷ rest else rest
