-- ===== src/Copilot/Run.antt =====
-- src/adapters/copilot.mjs: `run` up to the turn that it registers, `setModel`, `compact` and `close`, over the
-- sessions. What other calls do while `run` reads the catalogue is an argument of it; obtaining the session
-- and the other calls are taken with no other between their awaits.
use floe_runtime.Prelude.{
  ◌≡◌, refl, sym, ◌∙◌, if_true, if_false, subst, String, Bool, true, false, Option, none, some,
  if◌then◌else◌, if_both, List, [], ◌∷◌, ◌++◌, includes,
}
use floe_runtime.Prelude.Map
use floe_runtime.Prelude.Map.{Map}
use floe_runtime.Errors.{RuntimeFault, Result, ok, err, fault, ◌>>=◌, ◌>>◌, ◌⧺◌}
use package.floe_runtime.Copilot.Catalogue.{Catalogue, Checked, requested, assert_model_choice}
use package.floe_runtime.Copilot.Prompt.{Input, Prompt, prompt_options}
use package.floe_runtime.Copilot.Sessions.{
  Settings, Context, Entry, Sessions, Adapter, World, present, switch_model, keep_entry,
}
use package.floe_runtime.Copilot.Obtain.{
  Continuation, Got, Obtained, get_session, keep_present, opened_entry,
}
use package.floe_runtime.Copilot.Verified.{Verified, get_session-Verified}

-- A run: the key of its settings, its input, and what `#getSession` takes.
pub record Run : Type 0 where
  pub key : String
  pub cwd : String
  pub model : Option String
  pub settings : Settings
  pub input : Input
  pub continuation : Continuation

abbrev pub is_passed : Checked → Bool
is_passed (ok u) = true
is_passed (err e) = false

abbrev pub is_live : Sessions → Option String → Bool
is_live s none = false
is_live s (some i) = Map.has s.objects i

abbrev pub is_compacting : List String → Option String → Bool
is_compacting cs none = false
is_compacting cs (some i) = includes cs i

-- The catalogue is asked for only where a model is named.
abbrev pub choice_checked : World → Option String → Option String → Checked
choice_checked w m effort =
    if present m then (w.catalogue >>= λ c. assert_model_choice c m effort requested) else ok tt

-- What `run` tests before it touches a session. A live one is tested when its model is switched.
unfoldable pub before_session : World → Run → Sessions → Result Prompt
before_session w r s =
    (if is_live s r.continuation.session_id
      then ok tt
      else choice_checked w r.model r.settings.effort)
    >> prompt_options r.input

abbrev claimed : Run → Option Entry → Entry
claimed r none = record (opened_entry (keep_present r.model) (keep_present r.settings.effort)) {
  key = some r.key;
}
claimed r (some e) = record e { key = some r.key }

abbrev register : Run → String → Sessions → Sessions
register r i s = keep_entry i (claimed r (Map.get s.registry i)) s

-- A turn that `run` registers: its session, and what it sends.
pub record Turn : Type 0 where
  pub session_id : String
  pub reused : Bool
  pub prompt : Prompt

abbrev pub begin_turn : Run → Prompt → Obtained → Sessions × Result Turn
begin_turn r p (s, err e) = (s, err e)
begin_turn r p (s, ok g) =
    let known = register r g.session_id s in
    if includes known.turns g.session_id
    then (known, err (fault "turn_busy" "The session already has an active turn." 409))
    else (
      record known { turns = known.turns ++ g.session_id ∷ [] },
      ok (record { session_id = g.session_id; reused = g.reused; prompt = p }),
    )

abbrev pub run_with : Adapter → World → Run → Sessions → Result Prompt → Sessions × Result Turn
run_with a w r s (err e) = (s, err e)
run_with a w r s (ok p) = begin_turn r p (get_session a w r.cwd r.model r.settings r.continuation s)

-- `run`: the ids under compaction and the live sessions are read at its start, and `others` is what other
-- calls make of the sessions before it obtains its own.
unfoldable pub run :
    Adapter
    → World
    → List String
    → (others : Sessions → Sessions) → Run
    → Sessions
    → Sessions × Result Turn
unfolding before_session get_session
run a w compacting others r s =
    if is_compacting compacting r.continuation.session_id
    then (s, err (fault "compaction_busy" "The session is being compacted." 409))
    else run_with a w r (others s) (before_session w r s)

abbrev no_session : String → RuntimeFault
no_session i = fault "session_unavailable" ("Copilot session '" ⧺ i ⧺ "' is unavailable.") 404

abbrev set_model_in :
    Adapter
    → World
    → String
    → Option String
    → Option String
    → Option Context
    → Sessions
    → Sessions × Checked
set_model_in a w i model effort none s = (s, err (no_session i))
set_model_in a w i model effort (some c) s = switch_model a w i model effort c s

-- `setModel`
unfoldable pub set_model :
    Adapter → World → String → Option String → Option String → Sessions → Sessions × Checked
unfolding switch_model
set_model a w i model effort s =
    if Map.has s.objects i
    then set_model_in a w i model effort (Map.get s.contexts i) s
    else (s, err (no_session i))

abbrev disconnect_all : Map String → List String → List String
disconnect_all [] ds = ds
disconnect_all ((i, o) ∷ os) ds = disconnect_all os (ds ++ i ∷ [])

-- `onClosing` and `close`: every session is disconnected and forgotten. The turns that were interrupted
-- stay in their map until the SDK ends them.
unfoldable pub close : Sessions → Sessions
close s = record s {
  objects = [];
  contexts = [];
  registry = [];
  disconnected = disconnect_all s.objects s.disconnected;
}

-- What a turn that `run` registers has behind it: its session has just been verified, it sends the input,
-- its continuation was not being compacted when the run began, and if that was not live then and a model is
-- named, the catalogue could be read and the model and the effort passed its test.
pub record Begun (a : Adapter) (w : World) (cs : List String) (r : Run) (s : Sessions) (t : Turn)
    : Type 0 where
  pub session : Verified a w t.session_id
  pub sends : prompt_options r.input ≡ ok t.prompt
  pub was_free : is_compacting cs r.continuation.session_id ≡ false
  pub chosen :
      is_live s r.continuation.session_id ≡ false
      → present r.model ≡ true
      → (c : Catalogue) × (w.catalogue ≡ ok c)
        × (assert_model_choice c r.model r.settings.effort requested ≡ ok tt)

bound {ℓ κ} :
    {V : Type ℓ} {W : Type κ} (x : Result V) (next : V → Result W) (y : W)
    → (x >>= next) ≡ ok y
    → (v : V) × (x ≡ ok v) × (next v ≡ ok y)
bound (err e) next y h = absurd (cc)
bound (ok v) next y h = (v, refl, h)

module _ (a : Adapter) (w : World) (cs : List String) (r : Run) (s : Sessions) where
  abbrev AfterRun : Result Turn → Type 0
  AfterRun (ok t) = Begun a w cs r s t
  AfterRun (err e) = Unit {0}

  abbrev Sound : Sessions × Result Turn → Type 0
  Sound (d, x) = AfterRun x

  choice_made :
      (b : Bool) (u : Unit {0})
      → (if b then ok tt else choice_checked w r.model r.settings.effort) ≡ ok u
      → b ≡ false
      → present r.model ≡ true
      → (c : Catalogue) × (w.catalogue ≡ ok c)
        × (assert_model_choice c r.model r.settings.effort requested ≡ ok tt)
  choice_made b u h k p =
      bound w.catalogue (λ c. assert_model_choice c r.model r.settings.effort requested) tt
        (sym (if_true (present r.model) _ _ p) ∙ sym (if_false b _ _ k) ∙ h)

  begin_turn-Sound :
      (p : Prompt) (o d : Sessions) (x : Result Got)
      → get_session a w r.cwd r.model r.settings r.continuation d ≡ (o, x)
      → before_session w r s ≡ ok p
      → is_compacting cs r.continuation.session_id ≡ false
      → Sound (begin_turn r p (o, x))
  unfolding before_session
  begin_turn-Sound p o d (err e) h k f = tt
  begin_turn-Sound p o d (ok g) h k f =
      let (u, choice, sent) = bound _ (λ v. prompt_options r.input) p k in
      if_both Sound (includes (register r g.session_id o).turns g.session_id) _ _ (λ busy. tt)
        (λ free. (record {
          session = get_session-Verified a w r.cwd r.model r.settings r.continuation d o g h;
          sends = sent;
          was_free = f;
          chosen = choice_made (is_live s r.continuation.session_id) u choice;
        }))

  run_with-Sound :
      (d : Sessions) (x : Result Prompt)
      → before_session w r s ≡ x
      → is_compacting cs r.continuation.session_id ≡ false
      → Sound (run_with a w r d x)
  run_with-Sound d (err e) h f = tt
  run_with-Sound d (ok p) h f =
      let o = get_session a w r.cwd r.model r.settings r.continuation d in
      begin_turn-Sound p o.0 d o.1 refl h f

  -- When `run` registers a turn, whatever other calls do while it reads the catalogue, its session, live,
  -- resumed or created, with or without a switch of its model, has just reported the account that readiness
  -- confirmed and had its tools prepared; the prompt is the input's; the continuation was not being compacted
  -- when the run began; and if the continuation was not live then and a model is named, the catalogue was read
  -- and the model and the effort passed its test.
  pub run-Begun :
      (others : Sessions → Sessions) (d : Sessions) (t : Turn)
      → run a w cs others r s ≡ (d, ok t)
      → Begun a w cs r s t
  unfolding run
  run-Begun others d t h = subst Sound h (
      if_both Sound (is_compacting cs r.continuation.session_id) _ _ (λ busy. tt)
        (λ free. run_with-Sound (others s) (before_session w r s) refl free))
