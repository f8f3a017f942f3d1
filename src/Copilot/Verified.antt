-- ===== src/Copilot/Verified.antt =====
-- src/adapters/copilot.mjs: a run never gets a session whose account was not checked.
use floe_runtime.Prelude.{
  ◌≡◌, refl, String, Bool, true, false, Option, none, some, if◌then◌else◌, if_both, subst, ◌&&◌,
  ◌||◌, includes,
}
use floe_runtime.Prelude.Map
use floe_runtime.Errors.{Result, ok, err, ◌>>◌}
use package.floe_runtime.Copilot.Identity.{Matches, assert_account, assert_account-Matches}
use package.floe_runtime.Copilot.Catalogue.{Checked}
use package.floe_runtime.Copilot.Sessions.{
  Settings, Context, Sessions, Adapter, World, drop_failed, verify, prepare_verified, then_do,
  drop_again, put_model, track, after_switch, allowed_switch, switch_model, or_if_absent, effort_of,
  tools_fault,
}
use package.floe_runtime.Copilot.Obtain.{
  Continuation, Got, Obtained, got, reconfigured, live_session, resumed, created, fresh_session,
  is_final, set_context, stop_entry, locked, locked_fault, as_opened, differs, model_in,
  enter_session, or_fresh, resume_or_fresh, for_continuation, get_session,
}

-- The session's account is the one that readiness confirmed, and its tools were prepared.
pub record Verified (a : Adapter) (w : World) (i : String) : Type 0 where
  pub account : Matches a.lower a.expected a.source a.login (w.auth i)
  pub tools : w.prepares i ≡ ok tt

module _ (a : Adapter) (w : World) where
  abbrev AfterCheck : String → Checked → Type 0
  AfterCheck i (ok u) = Verified a w i
  AfterCheck i (err e) = Unit {0}

  -- What a step that prepares the session `i` leaves.
  abbrev Prepared : String → Sessions × Checked → Type 0
  Prepared i (s, r) = AfterCheck i r

  abbrev AfterGot : Result Got → Type 0
  AfterGot (ok g) = Verified a w g.session_id
  AfterGot (err e) = Unit {0}

  abbrev Checks : Obtained → Type 0
  Checks (s, r) = AfterGot r

  verified_by :
      (i : String) (p q : Checked)
      → assert_account a.lower a.expected a.source a.login (w.auth i) ≡ p
      → w.prepares i ≡ q
      → AfterCheck i (p >> q)
  verified_by i (err e) q h k = tt
  verified_by i (ok u) (err e) h k = tt
  verified_by i (ok u) (ok v) h k = record {
    account = (assert_account-Matches a.lower a.expected a.source a.login (w.auth i)).0 h;
    tools = k;
  }

  drop_failed-Prepared :
      (i : String) (s : Sessions) (r : Checked) → AfterCheck i r → Prepared i (drop_failed i s r)
  drop_failed-Prepared i s (ok u) h = h
  drop_failed-Prepared i s (err e) h = tt

  prepare_verified-Prepared : (i : String) (s : Sessions) → Prepared i (prepare_verified a w i s)
  unfolding prepare_verified
  prepare_verified-Prepared i s = drop_failed-Prepared i s (verify a w i) (
      verified_by i (assert_account a.lower a.expected a.source a.login (w.auth i)) (w.prepares i)
        refl refl)

  then_do-Prepared :
      (i : String) (f : Sessions → Sessions) (r : Sessions × Checked)
      → Prepared i r
      → Prepared i (then_do f r)
  then_do-Prepared i f (s, ok u) h = h
  then_do-Prepared i f (s, err e) h = tt

  drop_again-Prepared :
      (i : String) (r : Sessions × Checked) → Prepared i r → Prepared i (drop_again i r)
  drop_again-Prepared i (s, ok u) h = h
  drop_again-Prepared i (s, err e) h = tt

  unless_failed :
      (i : String) (c : Checked) (s : Sessions) (r : Sessions × Checked)
      → Prepared i r
      → Prepared i (elim c [ err e ↦ (s, err e) | ok u ↦ r ])
  unless_failed i (err e) s r h = tt
  unless_failed i (ok u) s r h = h

  after_switch-Prepared :
      (i : String) (m effort : Option String) (c : Context) (s : Sessions)
      → Prepared i (after_switch a w i m effort c s)
  after_switch-Prepared i m effort c s = drop_again-Prepared i _ (
      unless_failed i (w.configure c.settings) s _ (
        if_both (Prepared i) (w.update_tools i) _ (s, err tools_fault)
          (λ u.
            then_do-Prepared i (put_model i m effort c) (prepare_verified a w i s)
              (prepare_verified-Prepared i s))
          (λ u. tt)))

  switch_model-Prepared :
      (i : String) (target effort : Option String) (c : Context) (s : Sessions)
      → Prepared i (switch_model a w i target effort c s)
  unfolding switch_model
  switch_model-Prepared i target effort c s =
      let m = or_if_absent target (w.model_of i) in
      unless_failed i
        (allowed_switch w m effort (effort_of (Map.get s.registry i)) >> w.set_model i) s
        (after_switch a w i m effort c s) (after_switch-Prepared i m effort c s)

  reconfigured-Prepared :
      (i : String) (model : Option String) (c : Context) (s : Sessions)
      → Prepared i (reconfigured a w i model c s)
  reconfigured-Prepared i model c s =
      let e = Map.get s.registry i in
      let changed = c.settings.has_model && differs model (model_in e) in
      if_both (Prepared i) (changed || differs c.settings.effort (effort_of e))
        (switch_model a w i (if changed then model else model_in e) c.settings.effort c s)
        (elim (w.configure c.settings) [
          | err f ↦ (s, err f)
          | ok u ↦ then_do (set_context i c) (prepare_verified a w i s)
        ])
        (λ d. switch_model-Prepared i (if changed then model else model_in e) c.settings.effort c s)
        (λ d.
          unless_failed i (w.configure c.settings) s
            (then_do (set_context i c) (prepare_verified a w i s))
            (then_do-Prepared i (set_context i c) (prepare_verified a w i s)
              (prepare_verified-Prepared i s)))

  got-Checks :
      (i : String) (b : Bool) (f : Sessions → Sessions) (r : Sessions × Checked)
      → Prepared i r
      → Checks (got i b f r)
  got-Checks i b f (s, ok u) h = h
  got-Checks i b f (s, err e) h = tt

  live_session-Checks :
      (cwd i : String) (model : Option String) (t : Settings) (s : Sessions)
      → Checks (live_session a w cwd model i t s)
  live_session-Checks cwd i model t s =
      let c = Map.get s.contexts i in
      let opened : Context = record { cwd = cwd; settings = as_opened a c t } in
      if_both Checks (includes s.turns i) _ _ (λ busy. tt)
        (λ free.
          if_both Checks (locked a c t) (s, locked_fault)
            (got i true (stop_entry i) (reconfigured a w i model opened s)) (λ k. tt)
            (λ k.
              got-Checks i true (stop_entry i) (reconfigured a w i model opened s)
                (reconfigured-Prepared i model opened s)))

  resumed-Checks :
      (cwd : String) (model : Option String) (t : Settings) (s : Sessions) (r : Result String)
      → Checks (resumed a w cwd model t s r)
  resumed-Checks cwd model t s (err e) = tt
  resumed-Checks cwd model t s (ok i) =
      got-Checks i true (enter_session i cwd model t.effort t) (prepare_verified a w i s)
        (prepare_verified-Prepared i s)

  created-Checks :
      (cwd : String) (t : Settings) (s : Sessions) (r : Result String)
      → Checks (created a w cwd t s r)
  created-Checks cwd t s (err e) = tt
  created-Checks cwd t s (ok i) =
      got-Checks i false (track i (record { cwd = cwd; settings = t })) (prepare_verified a w i s)
        (prepare_verified-Prepared i s)

  or_fresh-Checks :
      (cwd : String) (t : Settings) (o : Obtained) → Checks o → Checks (or_fresh a w cwd t o)
  or_fresh-Checks cwd t (s, ok g) h = h
  or_fresh-Checks cwd t (s, err e) h =
      if_both Checks (is_final e) (s, err e) (fresh_session a w cwd t s) (λ f. tt)
        (λ f. created-Checks cwd t s (w.configure t >> w.creates))

  for_continuation-Checks :
      (cwd : String) (model : Option String) (t : Settings) (s : Sessions) (b : Bool)
      (i : Option String)
      → Checks (for_continuation a w cwd model t s b i)
  for_continuation-Checks cwd model t s b none = created-Checks cwd t s (w.configure t >> w.creates)
  for_continuation-Checks cwd model t s b (some i) =
      if_both Checks (Map.has s.objects i) (live_session a w cwd model i t s) _
        (λ l. live_session-Checks cwd i model t s)
        (λ l.
          if_both Checks b (resume_or_fresh a w cwd model t s i) (fresh_session a w cwd t s)
            (λ r.
              or_fresh-Checks cwd t (resumed a w cwd model t s (w.configure t >> w.resumes i))
                (resumed-Checks cwd model t s (w.configure t >> w.resumes i)))
            (λ r. created-Checks cwd t s (w.configure t >> w.creates)))

  -- The session that a run gets, live, resumed or created, with or without a switch of its model, has just
  -- reported the account that readiness confirmed, and its tools have been prepared.
  pub get_session-Verified :
      (cwd : String) (model : Option String) (t : Settings) (k : Continuation) (s s' : Sessions)
      (g : Got)
      → get_session a w cwd model t k s ≡ (s', ok g)
      → Verified a w g.session_id
  unfolding get_session
  get_session-Verified cwd model t k s s' g h =
      subst Checks h (for_continuation-Checks cwd model t s k.resumable k.session_id)
