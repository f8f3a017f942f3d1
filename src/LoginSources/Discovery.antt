-- ===== src/LoginSources/Discovery.antt =====
-- src/adapters/copilot-login-sources.mjs: who a token belongs to, and which logins can be used.
use floe_runtime.Prelude.{String, Bool, Option, none, some, List, [], ◌∷◌, ◌++◌, if◌then◌else◌}
use package.floe_runtime.LoginSources.{Source}

-- What `getAuthStatus()` reports; a login or a host that is empty counts as none.
pub record Auth : Type 0 where
  pub is_authenticated : Bool
  pub auth_type : String
  pub login : Option String
  pub host : Option String

pub record Identity : Type 0 where
  pub login : String
  pub host : Option String

abbrev identity_of : Option String → Option String → Option String → Option Identity
identity_of (some l) looked_up h = some (record { login = l; host = h })
identity_of none none h = none
identity_of none (some l) h = some (record { login = l; host = h })

-- `tokenIdentity`: `user_login` is what GitHub says of the token.
unfoldable pub token_identity : (Option String → Option String) → Auth → Option Identity
token_identity user_login a =
    if a.is_authenticated then identity_of a.login (user_login a.host) a.host else none

-- `identify`: a client that cannot be started or asked gives nothing.
abbrev pub identify :
    (String → Option Auth) → (String → Option String → Option String) → String → Option Identity
identify ask user_login token = elim (ask token) [
  | none ↦ none
  | some a ↦ token_identity (user_login token) a
]

pub record Found : Type 0 where
  pub source : Source
  pub identity : Identity

abbrev found_as : Source → Option Identity → List Found
found_as s none = []
found_as s (some i) = record { source = s; identity = i } ∷ []

abbrev identified :
    (String → Option Auth)
    → (String → Option String → Option String)
    → Option String
    → Option Identity
identified ask user_login none = none
identified ask user_login (some t) = identify ask user_login t

-- `discoverExistingLogins`
unfoldable pub discover :
    (Source → Option String)
    → (String → Option Auth)
    → (String → Option String → Option String)
    → List Source
    → List Found
unfolding token_identity
discover token ask user_login [] = []
discover token ask user_login (s ∷ ss) =
    found_as s (identified ask user_login (token s)) ++ discover token ask user_login ss
