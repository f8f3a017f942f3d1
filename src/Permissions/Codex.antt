-- ===== src/Permissions/Codex.antt =====
-- `normalizePermissionRequest` and `resolvePermissionRequest` of src/adapters/codex.mjs. A parameter of
-- a message is `none` where it is absent or empty; a command that is no text is given as its JSON text.
use floe_runtime.Prelude.{
  ◌≡◌, refl, String, Bool, true, false, Option, none, some, List, [], ◌∷◌, ◌++◌, if◌then◌else◌,
  ◌==◌, ◌||◌, or_else, includes, if_both,
}
use floe_runtime.Permissions.Decision.{Choice, PermissionRequest}

-- The message, by what the two methods read of it. `has_command` and `has_file` say whether the method's
-- name contains `commandExecution` and `fileChange`.
pub record ServerRequest (V : Type 0) : Type 0 where
  pub method : String
  pub has_command : Bool
  pub has_file : Bool
  pub message_id : String
  pub thread_id : Option String
  pub item_id : Option String
  pub command : Option String
  pub reason : Option String
  pub text : Option String
  pub available : Option (List String)
  pub is_tool_confirmation : Bool
  pub is_url : Bool
  pub permissions : Option V

abbrev choice : String → String → String → Choice
choice i d l = record { id = i; decision = d; label = l }

abbrev accept_choice : List String → List Choice
accept_choice allowed =
    if includes allowed "accept" then choice "accept" "allow_once" "Allow once" ∷ [] else []

abbrev decline_choice : List String → List Choice
decline_choice allowed =
    if includes allowed "decline" then choice "decline" "reject_once" "Decline" ∷ [] else []

abbrev or_text : Option String → String → String
or_text o d = or_else o d

pub data Verb : Type 0 where
  accept decline cancel : Verb

-- What a decision is translated to.
pub data Reply (V : Type 0) : Type 0 where
  decision_reply : Verb → Reply V
  permissions_reply : Option V → Reply V
  action_reply : Verb → (with_content : Bool) → Reply V

abbrev pub allows : String → Bool
allows d = d == "allow_once" || d == "allow_always"

abbrev verb : Bool → Verb
verb b = if b then accept else decline

granted-text : (b : Bool) → verb b ≡ accept → b ≡ true
granted-text true h = refl
granted-text false h = absurd (cc)

module _ {V : Type 0} where
  abbrev is_approval : ServerRequest V → Bool
  is_approval m = m.has_command || m.has_file

  abbrev approval_request : ServerRequest V → PermissionRequest
  approval_request m =
      let allowed = or_else m.available ("accept" ∷ "decline" ∷ []) in
      record {
        session_id = m.thread_id;
        id = or_else m.item_id m.message_id;
        title = or_else m.command (or_else m.reason m.method);
        kind = if m.has_file then "file" else "command";
        options = accept_choice allowed ++ decline_choice allowed;
      }

  abbrev tool_request : ServerRequest V → String → String → PermissionRequest
  tool_request m title accepting = record {
    session_id = m.thread_id;
    id = m.message_id;
    title = or_else m.text title;
    kind = "tool";
    options =
        choice "accept" "allow_once" accepting
        ∷ choice "decline" "reject_once" "Decline"
        ∷ choice "cancel" "cancel" "Cancel"
        ∷ [];
  }

  abbrev permissions_request : ServerRequest V → PermissionRequest
  permissions_request m = record {
    session_id = m.thread_id;
    id = m.message_id;
    title = or_else m.reason "Additional permissions requested";
    kind = "permissions";
    options =
        choice "grant" "allow_once" "Grant for this turn"
        ∷ choice "decline" "reject_once" "Decline"
        ∷ [];
  }

  unfoldable pub normalize_permission_request : ServerRequest V → Option PermissionRequest
  normalize_permission_request m =
      if is_approval m
      then some (approval_request m)
      else if m.method == "item/permissions/requestApproval"
      then some (permissions_request m)
      else if m.method == "mcpServer/elicitation/request"
      then if m.is_tool_confirmation
        then some (tool_request m "Tool confirmation requested" "Allow once")
        else if m.is_url
        then some (tool_request m "Complete the requested URL flow" "Completed URL flow")
        else none
      else none

  unfoldable pub resolve_permission_request : ServerRequest V → String → Option (Reply V)
  resolve_permission_request m d =
      if is_approval m
      then some (decision_reply (verb (allows d)))
      else if m.method == "item/permissions/requestApproval"
      then some (permissions_reply (if allows d then m.permissions else none))
      else if m.method == "mcpServer/elicitation/request"
      then if d == "cancel"
        then some (action_reply cancel false)
        else some (action_reply (verb (allows d)) (allows d))
      else none

  -- Does a reply grant something?
  abbrev pub Grants : Option (Reply V) → Type 0
  Grants none = ⊥
  Grants (some (decision_reply a)) = a ≡ accept
  Grants (some (permissions_reply none)) = ⊥
  Grants (some (permissions_reply (some v))) = Unit {0}
  Grants (some (action_reply a c)) = a ≡ accept

  granted-permissions :
      (b : Bool) (o : Option V)
      → Grants (some (permissions_reply (if b then o else none)))
      → b ≡ true
  granted-permissions true o h = refl
  granted-permissions false o h = absurd h

  -- What is sent to Codex grants something only if the decision was to allow.
  pub resolve-Grants :
      (m : ServerRequest V) (d : String) → Grants (resolve_permission_request m d) → allows d ≡ true
  unfolding resolve_permission_request
  resolve-Grants m d =
      if_both P (is_approval m) _ _ (λ _. granted-text (allows d))
        (λ _.
          if_both P (m.method == "item/permissions/requestApproval") _ _
            (λ _. granted-permissions (allows d) m.permissions)
            (λ _.
              if_both P (m.method == "mcpServer/elicitation/request") _ _
                (λ _.
                  if_both P (d == "cancel") _ _ (λ _ h. absurd (cancelled h))
                    (λ _. granted-text (allows d)))
                (λ _ h. absurd h)))
    where
      cancelled : cancel ≡ accept → ⊥
      cancelled h = cc

      P : Option (Reply V) → Type 0
      P r = Grants r → allows d ≡ true
