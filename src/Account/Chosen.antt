-- ===== src/Account/Chosen.antt =====
-- src/adapters/copilot-account.mjs: a login that was chosen is the one that later clients use.
use floe_runtime.Prelude.{
  String, ◌≡◌, refl, subst, true, false, Option, none, some, Option-cases, Bool-cases, if_both,
  if_false, List, [], ◌∷◌, inl, inr, is_some,
}
use floe_runtime.Errors.{Result, ok, err}
use floe_runtime.LoginSources.{
  Source, app, github_cli, environment, read_source, save_choice, in_sources, Login,
  unavailable_for, resolve_token, resolve_saved_login, resolved_login, read_choice,
}
use floe_runtime.LoginSources.Discovery.{Found, discover}
use floe_runtime.LoginSources.Saved.{read-save_choice}
use package.floe_runtime.Account.State.{Settings, World}
use package.floe_runtime.Account.Check.{Board, discover_existing_logins, resolve_login}
use package.floe_runtime.Account.Choice.{
  choosing, save_and_check, use_available, use_source, use_read, use_existing_login,
}

-- The choice of `s` is saved, and every later client is made with a token of that login.
pub record InForce (a : Settings) (s : Source) (w : World) : Type 0 where
  pub saved : w.choice ≡ save_choice s
  pub accepts : in_sources s a.accepted ≡ true
  pub login : Login
  pub resolved : resolve_login a w ≡ some login
  pub of_source : login.source ≡ s
  pub has_token : is_some login.token ≡ true

-- What holds of a result, where there is one.
abbrev pub OnOk {ℓ κ} : {A : Type ℓ} → (A → Type κ) → Result A → Type κ
OnOk P (ok x) = P x
OnOk P (err e) = Unit

none_found {ℓ} : {B : Type ℓ} {x : Found} {xs : List Found} → [] ≡ x ∷ xs → B
none_found h = cc

OnOk-map {ℓ κ μ} :
    {A : Type ℓ} {P : A → Type κ} {Q : A → Type μ}
    → ((x : A) → P x → Q x)
    → (r : Result A) → OnOk P r
    → OnOk Q r
OnOk-map f (ok x) p = f x p
OnOk-map f (err e) p = tt

found_token :
    (a : Settings) (w : World) (s : Source) (x : Found) (xs : List Found)
    → discover_existing_logins a w (s ∷ []) ≡ x ∷ xs
    → is_some (resolve_token s a.options a.env w.gh) ≡ true
unfolding discover
found_token a w s x xs h = elim (Option-cases (resolve_token s a.options a.env w.gh)) [
  | inl e ↦ none_found (rw e at h)
  | inr (t, e) ↦ rw e refl
]

no_reason {ℓ} : {B : Type ℓ} {m : String} → some m ≡ none → B
no_reason h = cc

saved_choice :
    (a : Settings) (w : World) (s : Source)
    → read_choice (save_choice s) ≡ some s
    → in_sources s a.accepted ≡ true
    → a.options.external ≡ false
    → is_some (resolve_token s a.options a.env w.gh) ≡ true
    → InForce a s (choosing w s)
unfolding resolve_login resolve_saved_login
saved_choice a w s r k e t = record {
  saved = refl;
  accepts = k;
  login = resolved_login s a.options a.env w.gh;
  resolved = rw (r, k) refl;
  of_source = refl;
  has_token = rw (if_false a.options.external none (resolve_token s a.options a.env w.gh) e) t;
}

module _ (a : Settings) (w : World) (b : Board) where
  abbrev InForceAfter : Source → World × Board → Type 0
  InForceAfter s r = InForce a s r.0

  save_and_check-InForce :
      (s : Source) (found : List Found)
      → read_choice (save_choice s) ≡ some s
      → in_sources s a.accepted ≡ true
      → a.options.external ≡ false
      → discover_existing_logins a w (s ∷ []) ≡ found
      → OnOk (InForceAfter s) (save_and_check a w b s found)
  save_and_check-InForce s [] r k e h = tt
  save_and_check-InForce s (x ∷ xs) r k e h =
      if_both (OnOk (InForceAfter s)) w.writable _ _
        (λ written. saved_choice a w s r k e (found_token a w s x xs h)) (λ failed. tt)

  unavailable-local : unavailable_for a.options ≡ none → a.options.external ≡ false
  unavailable-local h = elim (Bool-cases a.options.external) [
    | inl e ↦ no_reason (rw e at h)
    | inr e ↦ e
  ]

  use_available-InForce :
      (s : Source) (u : Option String)
      → read_choice (save_choice s) ≡ some s
      → in_sources s a.accepted ≡ true
      → unavailable_for a.options ≡ u
      → OnOk (InForceAfter s) (use_available a w b s u)
  use_available-InForce s (some m) r k e = tt
  use_available-InForce s none r k e =
      save_and_check-InForce s (discover_existing_logins a w (s ∷ [])) r k (unavailable-local e)
        refl

  use_source-InForce :
      (s : Source)
      → read_choice (save_choice s) ≡ some s
      → OnOk (InForceAfter s) (use_source a w b s)
  use_source-InForce s r =
      if_both (OnOk (InForceAfter s)) (in_sources s a.accepted) _ _
        (λ k. use_available-InForce s (unavailable_for a.options) r k refl) (λ k. tt)

  abbrev pub ChosenBy : Option Source → World × Board → Type 0
  ChosenBy o r = (s : Source) × ((o ≡ some s) × InForce a s r.0)

  use_read-InForce : (t : String) (o : Option Source) → OnOk (ChosenBy o) (use_read a w b t o)
  use_read-InForce t none = tt
  use_read-InForce t (some app) = tt
  use_read-InForce t (some github_cli) =
      OnOk-map (λ r i. (github_cli, (refl, i))) (use_source a w b github_cli)
        (use_source-InForce github_cli (read-save_choice github_cli))
  use_read-InForce t (some environment) =
      OnOk-map (λ r i. (environment, (refl, i))) (use_source a w b environment)
        (use_source-InForce environment (read-save_choice environment))

  -- When choosing an existing login succeeds, the text names a login that the application accepts, the
  -- choice is saved, and later clients are made with a token of that login.
  pub use_existing_login-InForce :
      (t : String) (w' : World) (b' : Board)
      → use_existing_login a w b t ≡ ok (w', b')
      → (s : Source) × ((read_source t ≡ some s) × InForce a s w')
  unfolding use_existing_login
  use_existing_login-InForce t w' b' h =
      subst (OnOk (ChosenBy (read_source t))) h (use_read-InForce t (read_source t))
