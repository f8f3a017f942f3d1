-- ===== src/Codex/Threads.antt =====
-- src/adapters/codex.mjs: the threads that the adapter keeps for reuse: retiring one, choosing the one for a
-- run, quiescing one. What the server answers is a parameter, the world. Each call is taken from its start
-- to its end, with no other between its awaits.
use floe_runtime.Prelude.{
  String, Bool, true, false, not, Option, none, some, if◌then◌else◌, List, [], ◌∷◌, ◌++◌, ◌==◌,
  ◌&&◌, ◌||◌, includes,
}
use floe_runtime.Prelude.Map
use floe_runtime.Prelude.Map.{Map}
use floe_runtime.Errors.{RuntimeFault, Result, ok, err, fault}

pub record Session : Type 0 where
  pub key : Option String
  pub stopped : Bool

pub record Threads : Type 0 where
  pub sessions : Map Session
  pub turns : List String

-- What `thread/read` answers of a thread.
pub record Thread : Type 0 where
  pub id : String
  pub status : Option String
  pub ephemeral : Bool
  pub in_progress : List String

abbrev pub has_status : String → Thread → Bool
has_status s t = elim t.status [ none ↦ false | some x ↦ x == s ]

-- `retire`, whatever the server says of the release.
abbrev not_stopped : RuntimeFault
not_stopped =
    fault "quiescence_unknown" "Confirm the assignment stopped before retiring its session." 409

abbrev pub retire_session : String → Threads → Option Session → Result Threads
retire_session i c none = ok c
retire_session i c (some s) =
    if s.stopped && not (includes c.turns i)
    then ok (record c { sessions = Map.delete c.sessions i })
    else err not_stopped

unfoldable pub retire : String → Threads → Result Threads
retire i c = retire_session i c (Map.get c.sessions i)

-- What a run asks for: its key, whether the caller gave a scope, the persistence, and the thread to go on with.
pub record Request : Type 0 where
  pub key : String
  pub scoped : Bool
  pub ephemeral : Bool
  pub thread_id : Option String

-- The answers to `thread/read` and `thread/start`.
pub record World : Type 0 where
  pub reads : String → Result Thread
  pub starts : Result Thread

abbrev pub put_session : String → Session → Threads → Threads
put_session i s c = record c { sessions = Map.set c.sessions i s }

-- A session that was only resumed is claimed by the key of the first run.
abbrev pub adopt_key : String → Session → Session
adopt_key key s = elim s.key [ none ↦ record s { key = some key } | some k ↦ s ]

abbrev pub is_key : String → Option String → Bool
is_key key none = false
is_key key (some k) = k == key

abbrev active_again : RuntimeFault
active_again =
    fault "quiescence_unknown"
      "The previous session unexpectedly became active. A fresh assignment is blocked until its stop is confirmed."
      409

-- How the look at the previous thread ends: it goes on, it is given up, or the run is refused.
pub data Look : Type 0 where
  goes_on : String → Look
  given_up : Look
  refuses : RuntimeFault → Look

abbrev pub is_same_idle : Request → String → Thread → Bool
is_same_idle r i t =
    t.id == i
    && ((t.ephemeral && r.ephemeral) || (not t.ephemeral && not r.ephemeral))
    && has_status "idle" t

abbrev pub look_at : Request → String → Result Thread → Look
look_at r i (err e) = if e.fault_code == "rpc_error" then given_up else refuses e
look_at r i (ok t) =
    if has_status "active" t || has_status "systemError" t
    then refuses active_again
    else if is_same_idle r i t
    then goes_on i
    else given_up

abbrev pub is_active : Result Thread → Bool
is_active (err e) = false
is_active (ok t) = has_status "active" t || has_status "systemError" t

abbrev pub after_look : String → Session → Result Thread → Threads → Threads
after_look i s read c = if is_active read then put_session i (record s { stopped = false }) c else c

abbrev pub may_go_on : Request → Session → Bool
may_go_on r s = is_key r.key s.key && s.stopped && r.scoped

-- The look at a previous session, with what it changes.
abbrev pub look_back : Request → World → String → Session → Threads → Threads × Look
look_back r w i s c =
    let claimed = put_session i s c in
    if may_go_on r s
    then (after_look i s (w.reads i) claimed, look_at r i (w.reads i))
    else (claimed, given_up)

abbrev pub with_session : Request → World → String → Threads → Option Session → Threads × Look
with_session r w i c none = (c, given_up)
with_session r w i c (some s) = look_back r w i (adopt_key r.key s) c

abbrev pub previous : Request → World → Option String → Threads → Threads × Look
previous r w none c = (c, given_up)
previous r w (some i) c = with_session r w i c (Map.get c.sessions i)

abbrev pub retire_previous : Option String → Threads → Result Threads
retire_previous none c = ok c
retire_previous (some i) c = retire i c

abbrev pub same_persistence : Request → Thread → Bool
same_persistence r t = (t.ephemeral && r.ephemeral) || (not t.ephemeral && not r.ephemeral)

abbrev mismatch : Result String
mismatch = err (fault "session_mismatch" "Codex created a thread with unexpected persistence." 409)

abbrev pub started : Request → Result Thread → Result String
started r (err e) = err e
started r (ok t) = if same_persistence r t then ok t.id else mismatch

-- A run that gets a thread: its id, and whether it is the previous one.
pub record Got : Type 0 where
  pub thread_id : String
  pub reused : Bool

abbrev pub claim : Request → Bool → String → Threads → Threads × Result Got
claim r reused i c =
    if includes c.turns i
    then (c, err (fault "turn_busy" "The thread already has a turn." 409))
    else (
      record c {
        sessions = Map.set c.sessions i (record { key = some r.key; stopped = false });
        turns = c.turns ++ i ∷ [];
      },
      ok (record { thread_id = i; reused = reused }),
    )

abbrev pub claim_started : Request → Threads → Result String → Threads × Result Got
claim_started r c (err e) = (c, err e)
claim_started r c (ok i) = claim r false i c

abbrev pub start_fresh : Request → World → Threads → Result Threads → Threads × Result Got
start_fresh r w c (err e) = (c, err e)
start_fresh r w c (ok d) = claim_started r d (started r w.starts)

abbrev pub after_previous : Request → World → Option String → Threads × Look → Threads × Result Got
after_previous r w o (c, goes_on i) = claim r true i c
after_previous r w o (c, refuses e) = (c, err e)
after_previous r w o (c, given_up) = start_fresh r w c (retire_previous o c)

-- `run`, up to the turn that it registers.
unfoldable pub obtain : Request → World → Threads → Threads × Result Got
unfolding retire
obtain r w c = after_previous r w r.thread_id (previous r w r.thread_id c)
