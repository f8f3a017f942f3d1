-- ===== src/Account/Readiness.antt =====
-- src/adapters/copilot-account.mjs: what an account that is reported ready has behind it.
use floe_runtime.Prelude.{
  ℕ, suc, String, zero, ◌≡◌, refl, sym, ◌∙◌, Bool, true, false, not, Option, none, some, if_both,
  ◌↔◌, ◌&&◌, ◌||◌, is_some, arith,
}
use floe_runtime.LoginSources.{Source, app, same_source, is_chosen_type, Login}
use floe_runtime.LoginSources.Discovery.{Auth}
use package.floe_runtime.Account.State.{
  Models, listed, no_list, refused, Settings, World, action_required, ready, is_process_global,
  AccountName, untried,
}
use package.floe_runtime.Account.Check.{
  signed_out_message, resolve_login, check_models, check_auth, signed_out_or, check_client,
  check_login, Board, check_account, not_available, unreached, signed_out_state, account_of,
}

-- An identity that is not a process-global credential, or one that the person chose.
abbrev pub is_own : Login → Auth → Bool
is_own l u =
    u.is_authenticated
    && (not (is_process_global u.auth_type) || (is_some l.token && is_chosen_type u.auth_type))

-- Everything that has to go well for a login.
pub record Usable (a : Settings) (w : World) : Type 0 where
  pub login : Login
  pub auth : Auth
  pub more : ℕ
  pub resolved : resolve_login a w ≡ some login
  pub held : (is_some login.token || same_source login.source app) ≡ true
  pub connects : (w.starts login.token && w.pings login.token) ≡ true
  pub asked : w.ask login.token ≡ some auth
  pub own : is_own login auth ≡ true
  pub lists : w.models login.token ≡ listed (suc more)

refused-phase :
    (c : String) (n : Option AccountName) (s : Source)
    → (check_models (refused c) n s).phase ≡ action_required
unfolding check_models
refused-phase c n s = ground arith

absurd_phase {ℓ} : {B : Type ℓ} → action_required ≡ ready → B
absurd_phase h = cc

check_models-ready :
    (m : Models) (n : Option AccountName) (s : Source)
    → (check_models m n s).phase ≡ ready
    → (k : ℕ) × (m ≡ listed (suc k))
unfolding check_models
check_models-ready (listed zero) n s h = cc
check_models-ready (listed (suc k)) n s h = (k, refl)
check_models-ready no_list n s h = cc
check_models-ready (refused c) n s h = absurd_phase (sym (refused-phase c n s) ∙ h)

signed_out_message-none :
    (u : Auth) (l : Login) → signed_out_message u l ≡ none ↔ (is_own l u ≡ true)
unfolding signed_out_message
signed_out_message-none u l = ground arith

if_login : (b c : Bool) → (b || c) ≡ true → (not b && not c) ≡ false
if_login b c h = ground arith

module _ (a : Settings) (w : World) where
  signed_out_or-ready :
      (l : Login) (u : Auth) (o : Option String)
      → (signed_out_or a w l u o).phase ≡ ready
      → (o ≡ none) × ((k : ℕ) × (w.models l.token ≡ listed (suc k)))
  signed_out_or-ready l u none h =
      (refl, check_models-ready (w.models l.token) (account_of w u l.token) l.source h)
  signed_out_or-ready l u (some m) h = absurd_phase h

  client-Usable :
      (l : Login) (o : Option Auth)
      → resolve_login a w ≡ some l
      → (is_some l.token || same_source l.source app) ≡ true
      → (w.starts l.token && w.pings l.token) ≡ true
      → w.ask l.token ≡ o
      → (check_auth a w l o).phase ≡ ready
      → Usable a w
  unfolding check_auth
  client-Usable l none r k c e h = cc
  client-Usable l (some u) r k c e h =
      let q = signed_out_or-ready l u (signed_out_message u l) h in
      record {
        login = l;
        auth = u;
        more = q.1.0;
        resolved = r;
        held = k;
        connects = c;
        asked = e;
        own = (signed_out_message-none u l).0 q.0;
        lists = q.1.1;
      }

  check_login-ready :
      (o : Option Login) → resolve_login a w ≡ o → (check_login a w o).phase ≡ ready → Usable a w
  unfolding check_login
  check_login-ready none r = λ h. cc
  check_login-ready (some l) r =
      if_both (λ s. s.phase ≡ ready → Usable a w)
        (not (is_some l.token) && not (same_source l.source app))
        (signed_out_state a w (not_available l) untried) (check_client a w l)
        (λ out h. absurd_phase h)
        (λ held.
          if_both (λ s. s.phase ≡ ready → Usable a w) (w.starts l.token && w.pings l.token)
            (check_auth a w l (w.ask l.token)) unreached
            (λ c h. client-Usable l (w.ask l.token) r (ground (arith, held)) c refl h) (λ c h. cc))

  Usable-ready : Usable a w → (check_login a w (resolve_login a w)).phase ≡ ready
  unfolding check_login check_auth check_models
  Usable-ready q =
      rw
        (
          q.resolved,
          if_login (is_some q.login.token) (same_source q.login.source app) q.held,
          q.connects,
          q.asked,
          (signed_out_message-none q.auth q.login).1 q.own,
          q.lists,
        )
        refl

  -- The account is reported ready exactly when the saved login resolves, the application's own or one
  -- with a token, a client for it starts, answers and is authenticated, its identity is not a
  -- process-global credential unless it comes from a chosen login's token, and it lists a model.
  pub check_account-Usable :
      (b : Board) → ((check_account a w b).current.phase ≡ ready) ↔ Usable a w
  unfolding check_account
  check_account-Usable b = (check_login-ready (resolve_login a w) refl, Usable-ready)
