-- ===== src/Copilot/Sessions.antt =====
-- src/adapters/copilot.mjs: the live sessions of the adapter: preparing one, switching its model, finding the
-- one for a run, resuming and retiring. What the SDK answers and what the tools' part of the adapter finds
-- are parameters, the world. Each call is taken from its start to its end, with no other between its awaits.
use floe_runtime.Prelude.{
  String, Bool, true, false, not, Option, none, some, if◌then◌else◌, List, [], ◌∷◌, ◌++◌, ◌==◌,
}
use floe_runtime.Prelude.Map
use floe_runtime.Prelude.Map.{Map}
use floe_runtime.Errors.{RuntimeFault, Result, ok, err, fault, ◌>>◌, ◌>>=◌, check}
use floe_runtime.LoginSources.{Source}
use floe_runtime.LoginSources.Discovery.{Auth}
use package.floe_runtime.Copilot.Identity.{Expected, AuthAnswer, assert_account}
use package.floe_runtime.Copilot.Catalogue.{
  Catalogue, Checked, Origin, requested, current, assert_model_choice,
}

-- The settings of a run: whether a model is among them, the effort, and `infiniteSessions` where the run
-- has it, by its normalized text.
pub record Settings : Type 0 where
  pub has_model : Bool
  pub effort : Option String
  pub infinite : Option (Option String)

pub record Context : Type 0 where
  pub cwd : String
  pub settings : Settings

-- What the registry has of a session.
pub record Entry : Type 0 where
  pub key : Option String
  pub stopped : Bool
  pub current_model : Option String
  pub current_effort : Option String

pub record Sessions : Type 0 where
  pub objects : Map String
  pub contexts : Map Context
  pub registry : Map Entry
  pub turns : List String
  pub disconnected : List String

pub record Adapter : Type 0 where
  pub lower : String → String
  pub expected : Expected
  pub source : Source
  pub login : Auth → Option String
  pub infinite : Option String

-- The answers to: building the options of a session, `resumeSession`, `createSession`, the session's
-- account, its tools, the model it has, the catalogue, `setModel` and the update of its tools.
pub record World : Type 0 where
  pub configure : Settings → Checked
  pub resumes : String → Result String
  pub creates : Result String
  pub auth : String → AuthAnswer
  pub prepares : String → Checked
  pub model_of : String → Option String
  pub catalogue : Result Catalogue
  pub set_model : String → Checked
  pub update_tools : String → Bool

-- What is removed where a session cannot be used.
abbrev pub drop : String → Sessions → Sessions
drop i s = record s {
  objects = Map.delete s.objects i;
  contexts = Map.delete s.contexts i;
  registry = Map.delete s.registry i;
  disconnected = s.disconnected ++ i ∷ [];
}

abbrev pub drop_failed : String → Sessions → Checked → Sessions × Checked
drop_failed i s (ok u) = (s, ok u)
drop_failed i s (err e) = (drop i s, err e)

abbrev pub verify : Adapter → World → String → Checked
verify a w i = assert_account a.lower a.expected a.source a.login (w.auth i) >> w.prepares i

-- `#prepareSession`
unfoldable pub prepare_verified : Adapter → World → String → Sessions → Sessions × Checked
prepare_verified a w i s = drop_failed i s (verify a w i)

abbrev pub infinite_of : Adapter → Settings → Option String
infinite_of a t = elim t.infinite [
  | none ↦ a.infinite
  | some v ↦ elim v [ none ↦ a.infinite | some x ↦ some x ]
]

abbrev pub same_text : Option String → Option String → Bool
same_text none none = true
same_text (some x) (some y) = x == y
same_text none (some y) = false
same_text (some x) none = false

abbrev pub track : String → Context → Sessions → Sessions
track i c s = record s { objects = Map.set s.objects i i; contexts = Map.set s.contexts i c }

abbrev pub keep_entry : String → Entry → Sessions → Sessions
keep_entry i e s = record s { registry = Map.set s.registry i e }

-- After a session has been prepared, or not.
abbrev pub then_do : (Sessions → Sessions) → Sessions × Checked → Sessions × Checked
then_do f (s, ok u) = (f s, ok u)
then_do f (s, err e) = (s, err e)

abbrev pub present : Option String → Bool
present none = false
present (some m) = not (m == "")

abbrev pub or_if_absent : Option String → Option String → Option String
or_if_absent o p = if present o then o else p

abbrev pub effort_of : Option Entry → Option String
effort_of none = none
effort_of (some e) = e.current_effort

abbrev pub model_switched : Option String → Option String → Option Entry → Option Entry
model_switched m effort none = none
model_switched m effort (some e) =
    some (record e { current_model = m; current_effort = or_if_absent effort e.current_effort })

abbrev pub put_entry : String → Option Entry → Sessions → Sessions
put_entry i none s = s
put_entry i (some e) s = keep_entry i e s

abbrev pub put_model : String → Option String → Option String → Context → Sessions → Sessions
put_model i m effort c s =
    put_entry i (model_switched m effort (Map.get s.registry i))
      (record s { contexts = Map.set s.contexts i c })

abbrev pub tools_fault : RuntimeFault
tools_fault =
    fault "copilot_tool_catalog_unavailable"
      "Copilot could not update its exact tool allowlist after the model changed." 503

-- A failure after the switch drops the session; a failed preparation has dropped it before.
abbrev pub drop_again : String → Sessions × Checked → Sessions × Checked
drop_again i (s, ok u) = (s, ok u)
drop_again i (s, err e) = (drop i s, err e)

abbrev pub after_switch :
    Adapter
    → World
    → String
    → Option String
    → Option String
    → Context
    → Sessions
    → Sessions × Checked
after_switch a w i m effort c s = drop_again i (elim (w.configure c.settings) [
  | err e ↦ (s, err e)
  | ok u ↦
      if w.update_tools i
      then then_do (put_model i m effort c) (prepare_verified a w i s)
      else (s, err tools_fault)
])

abbrev origin_of : Option String → Origin
origin_of effort = if present effort then requested else current

abbrev no_model : RuntimeFault
no_model =
    fault "copilot_model_unavailable"
      "Copilot did not report the session model, so its reasoning effort cannot be changed." 409

abbrev pub allowed_switch : World → Option String → Option String → Option String → Checked
allowed_switch w m effort kept =
    check (present m) no_model.fault_code no_model.message no_model.status
    >> (w.catalogue >>= λ c. assert_model_choice c m (or_if_absent effort kept) (origin_of effort))

-- `#switchModel`
unfoldable pub switch_model :
    Adapter
    → World
    → String
    → Option String
    → Option String
    → Context
    → Sessions
    → Sessions × Checked
unfolding prepare_verified
switch_model a w i target effort c s =
    let m = or_if_absent target (w.model_of i) in
    elim (allowed_switch w m effort (effort_of (Map.get s.registry i)) >> w.set_model i) [
      | err e ↦ (s, err e)
      | ok u ↦ after_switch a w i m effort c s
    ]
