-- ===== src/Copilot/Identity.antt =====
-- src/adapters/copilot.mjs: the login of a new client, and the account that a session must have. The
-- letters of a text in small, `toLowerCase`, are a parameter.
use floe_runtime.Prelude.{
  ◌≡◌, refl, sym, subst, ◌↔◌, String, Bool, true, false, not, Option, none, some, or_else,
  if◌then◌else◌, ◌==◌, ◌&&◌, is_some, arith, eq_iff, ◌⊎◌, inl, inr,
}
use floe_runtime.Prelude.Map.{Map}
use floe_runtime.Errors.{RuntimeFault, Result, ok, err, fault, ◌⧺◌}
use floe_runtime.Texts.{trim, drop_slashes}
use floe_runtime.LoginSources.{
  Source, app, github_cli, environment, same_source, source_label, is_chosen_type, Login,
  ClientOptions,
}
use floe_runtime.LoginSources.Discovery.{Auth, Identity, token_identity}
use floe_runtime.Account.Options.{SdkOptions, sdk_client_options}

-- `expectedAccount`
pub record Expected : Type 0 where
  pub label : String
  pub host : Option String

-- What a session answers about its account: an error, or its authentication.
pub data AuthAnswer : Type 0 where
  no_answer : String → AuthAnswer
  answered : Auth → AuthAnswer

abbrev login_unavailable : Login → RuntimeFault
login_unavailable l =
    fault "copilot_login_unavailable"
      (or_else l.unavailable (
        "Floe is set to use your "
        ⧺ source_label l.source
        ⧺ ", but it isn't available now. Check Copilot readiness."))
      401

-- `#sdkOptions`, once the saved login is resolved: a choice without a token gives no client at all.
unfoldable pub client_options : ClientOptions → String → Map String → Login → Result SdkOptions
client_options o base env l =
    if not (same_source l.source app) && not (is_some l.token)
    then err (login_unavailable l)
    else ok (sdk_client_options o base env l.token)

abbrev login_of : Option Identity → Option String
login_of none = none
login_of (some i) = some i.login

abbrev chosen_login : Option String → Option Identity → Option String
chosen_login none i = login_of i
chosen_login (some l) i = some l

-- `#sessionLogin`: of a chosen token, GitHub may have to confirm the owner.
unfoldable pub session_login : Source → (Option String → Option String) → Auth → Option String
session_login app user_login u = u.login
session_login s user_login u = chosen_login u.login (token_identity user_login u)

abbrev mismatch : String → RuntimeFault
mismatch m = fault "copilot_account_mismatch" m 409

abbrev pub accepted_type : Source → String → Bool
accepted_type app t = t == "user"
accepted_type s t = is_chosen_type t

abbrev expected_kind : Source → String
expected_kind app = "readiness OAuth account"
expected_kind s = "readiness " ⧺ source_label s

abbrev Unit0 : Type 0
Unit0 = Unit {0}

abbrev gated :
    Bool
    → Bool
    → Bool
    → Bool
    → RuntimeFault
    → RuntimeFault
    → RuntimeFault
    → RuntimeFault
    → Result Unit0
gated a b c d e f g h =
    if not a
    then err e
    else if not b
    then err f
    else if not c
    then err g
    else if not d
    then err h
    else ok tt

no_success {ℓ} : {B : Type ℓ} {e : RuntimeFault} → ◌≡◌ {A = Result Unit0} (err e) (ok tt) → B
no_success h = cc

gates :
    (a b c d : Bool) (e f g h : RuntimeFault)
    → (gated a b c d e f g h ≡ ok tt) ↔ ((a ≡ true) × ((b ≡ true) × ((c ≡ true) × (d ≡ true))))
gates true true true true e f g h = ground arith
gates true true true false e f g h = (λ k. no_success k, λ q. cc)
gates true true false d e f g h = (λ k. no_success k, λ q. cc)
gates true false c d e f g h = (λ k. no_success k, λ q. cc)
gates false b c d e f g h = (λ k. no_success k, λ q. cc)

no_report {ℓ} : {B : Type ℓ} {m : String} {u : Auth} → no_answer m ≡ answered u → B
no_report h = cc

same_answer : (u v : Auth) → answered u ≡ answered v → u ≡ v
same_answer u v h = cc

module _ (lower : String → String) where
  -- `normalizedHost`
  abbrev pub normalized_host : Option String → String
  normalized_host none = ""
  normalized_host (some h) = lower (drop_slashes (trim h))

  abbrev pub same_host : Expected → Option String → Bool
  same_host x h = elim x.host [
    | none ↦ true
    | some e ↦ normalized_host h == normalized_host (some e)
  ]

  abbrev pub same_login : Expected → Option String → Bool
  same_login x none = false
  same_login x (some l) = lower l == lower x.label

  -- `#assertSessionAccount`
  abbrev pub assert_auth : Expected → Source → (Auth → Option String) → Auth → Result Unit0
  assert_auth x s login u =
      if not u.is_authenticated
      then err (
          mismatch
            ("Copilot session is not authenticated as the readiness account '" ⧺ x.label ⧺ "'."))
      else if not (accepted_type s u.auth_type)
      then err (
          mismatch (
            "Copilot session selected '"
            ⧺ u.auth_type
            ⧺ "' authentication instead of the "
            ⧺ expected_kind s
            ⧺ " '"
            ⧺ x.label
            ⧺ "'."))
      else if not (same_login x (login u))
      then err (
          mismatch (
            "Copilot session authenticated as '"
            ⧺ or_else (login u) "unknown"
            ⧺ "' instead of readiness account '"
            ⧺ x.label
            ⧺ "'."))
      else if not (same_host x u.host)
      then err (
          mismatch (
            "Copilot session authenticated against '"
            ⧺ or_else u.host "unknown"
            ⧺ "' instead of readiness host '"
            ⧺ or_else x.host ""
            ⧺ "'."))
      else ok tt

  unfoldable pub assert_account :
      Expected → Source → (Auth → Option String) → AuthAnswer → Result Unit0
  assert_account x s login (no_answer m) =
      err
        (fault "copilot_auth_unverified" ("Copilot could not verify the session account: " ⧺ m) 503)
  assert_account x s login (answered u) = assert_auth x s login u

  -- The kinds of authentication that a source stands for.
  abbrev pub TypeOf : Source → String → Type 0
  TypeOf app t = t ≡ "user"
  TypeOf s t = (t ≡ "token") ⊎ (t ≡ "env")

  -- The host without surrounding blanks and closing slashes, in small letters.
  abbrev pub HostOf : Option String → String → Type 0
  HostOf none t = t ≡ ""
  HostOf (some h) t = t ≡ lower (drop_slashes (trim h))

  -- A session that has the account which readiness confirmed.
  pub record Matches (x : Expected) (s : Source) (login : Auth → Option String) (a : AuthAnswer)
      : Type 0 where
    pub auth : Auth
    pub reported : a ≡ answered auth
    pub authenticated : auth.is_authenticated ≡ true
    pub by_type : TypeOf s auth.auth_type
    pub of_login : (l : String) × (login auth ≡ some l) × (lower l ≡ lower x.label)
    pub at_host :
        (x.host ≡ none)
        ⊎ (e : String) × (x.host ≡ some e) × HostOf auth.host (lower (drop_slashes (trim e)))

  accepted_type_iff : (s : Source) (t : String) → (accepted_type s t ≡ true) ↔ TypeOf s t
  accepted_type_iff app t = eq_iff t "user"
  accepted_type_iff github_cli t = ground (arith, eq_iff t "token", eq_iff t "env")
  accepted_type_iff environment t = ground (arith, eq_iff t "token", eq_iff t "env")

  same_login_iff :
      (x : Expected) (o : Option String)
      → (same_login x o ≡ true) ↔ ((l : String) × (o ≡ some l) × (lower l ≡ lower x.label))
  same_login_iff x none = (λ h. absurd (cc), λ (l, e, q). absurd (cc))
  same_login_iff x (some l) = (
    λ h. (l, refl, (eq_iff (lower l) (lower x.label)).0 h),
    λ (k, e, q). (eq_iff (lower l) (lower x.label)).1 (cc),
  )

  host_iff : (o : Option String) (t : String) → ((normalized_host o == t) ≡ true) ↔ HostOf o t
  host_iff none t = (λ h. sym ((eq_iff "" t).0 h), λ h. (eq_iff "" t).1 (sym h))
  host_iff (some h) t = (
    λ e. sym ((eq_iff (lower (drop_slashes (trim h))) t).0 e),
    λ e. (eq_iff (lower (drop_slashes (trim h))) t).1 (sym e),
  )

  abbrev AtHost : Option String → Option String → Type 0
  AtHost x h = (x ≡ none) ⊎ (e : String) × (x ≡ some e) × HostOf h (lower (drop_slashes (trim e)))

  same_host_iff :
      (label : String) (o h : Option String)
      → (same_host (record { label = label; host = o }) h ≡ true) ↔ AtHost o h
  same_host_iff label none h = (λ k. inl refl, λ k. refl)
  same_host_iff label (some e) h =
      let iff = host_iff h (lower (drop_slashes (trim e))) in
      (
        λ k. inr (e, refl, iff.0 k),
        λ k. elim k [
          | inl none' ↦ absurd (cc)
          | inr (d, p, q) ↦
              iff.1 (subst (λ z. HostOf h (lower (drop_slashes (trim z)))) (same d p) q)
        ],
      )
    where
      same : (d : String) → some e ≡ some d → d ≡ e
      same d p = cc

  -- A session passes the test of its account exactly when it reports that it is authenticated, in a way
  -- that the login's source allows, as the account that readiness confirmed, and at its host if one is known.
  pub assert_account-Matches :
      (x : Expected) (s : Source) (login : Auth → Option String) (a : AuthAnswer)
      → (assert_account x s login a ≡ ok tt) ↔ Matches x s login a
  unfolding assert_account
  assert_account-Matches x s login (no_answer m) = (λ h. no_success h, λ q. no_report q.reported)
  assert_account-Matches x s login (answered u) = (
    λ h.
        (let g =
            (gates u.is_authenticated (accepted_type s u.auth_type) (same_login x (login u))
                (same_host x u.host) _ _ _ _).0
              h in
          record {
            auth = u;
            reported = refl;
            authenticated = g.0;
            by_type = (accepted_type_iff s u.auth_type).0 g.1.0;
            of_login = (same_login_iff x (login u)).0 g.1.1.0;
            at_host = (same_host_iff x.label x.host u.host).0 g.1.1.1;
          }),
    λ q.
        subst (λ v. assert_auth x s login v ≡ ok tt) (sym (same_answer u q.auth q.reported))
          ((gates q.auth.is_authenticated (accepted_type s q.auth.auth_type)
              (same_login x (login q.auth)) (same_host x q.auth.host) _ _ _ _).1
            (
              q.authenticated,
              (
                (accepted_type_iff s q.auth.auth_type).1 q.by_type,
                (
                  (same_login_iff x (login q.auth)).1 q.of_login,
                  (same_host_iff x.label x.host q.auth.host).1 q.at_host,
                ),
              ),
            )),
  )
