-- ===== src/Permissions/Decision.antt =====
-- `pickOption`, and the choice between the policy's decision and the default.
use floe_runtime.Prelude.{
  ◌≡◌, refl, ◌⊎◌, inl, inr, String, Bool, true, false, Option, none, some, List, [], ◌∷◌,
  if◌then◌else◌, ◌==◌, ◌||◌, ◌&&◌, find, some_of, if_both,
}
use floe_runtime.Texts.{is_empty}

-- `PERMISSION_DECISIONS`
abbrev pub permission_decisions : List String
permission_decisions =
    "allow_once" ∷ "allow_always" ∷ "reject_once" ∷ "reject_always" ∷ "cancel" ∷ []

pub record Choice : Type 0 where
  pub id : String
  pub decision : String
  pub label : String

abbrev or_option : Option Choice → Option Choice → Option Choice
or_option none o = o
or_option (some c) o = some c

-- `pickOption`
unfoldable pub pick_option : List Choice → String → Option Choice
pick_option options d =
    or_option (find (λ o. o.decision == d) options) (find (λ o. o.id == d) options)

-- A request as the policy sees it, without the copy of the raw message.
pub record PermissionRequest : Type 0 where
  pub session_id : Option String
  pub id : String
  pub title : String
  pub kind : String
  pub options : List Choice

-- What the caller's policy does: it answers a decision, or none, or throws.
pub data PolicyAnswer : Type 0 where
  decides : String → PolicyAnswer
  undecided throws : PolicyAnswer

abbrev pub is_offered : List Choice → String → Bool
is_offered options d = not_empty && (some_of (λ o. o.decision == d) options || d == "cancel")
  where
    not_empty : Bool
    not_empty = if is_empty d then false else true

abbrev decide_by : List Choice → String → PolicyAnswer → String
decide_by options default (decides d) = if is_offered options d then d else default
decide_by options default undecided = default
decide_by options default throws = default

abbrev asked : Option (PermissionRequest → PolicyAnswer) → PermissionRequest → PolicyAnswer
asked none r = undecided
asked (some policy) r = policy r

-- `#handlePermission`: the decision that is sent to the backend.
unfoldable pub handle_permission :
    Option (PermissionRequest → PolicyAnswer) → (default : String) → PermissionRequest → String
handle_permission policy default r = decide_by r.options default (asked policy r)

-- The decision that is sent is the default one, or it is one that the policy answered and that the
-- request offers, or that is `cancel`: a policy that throws, does not decide, or answers what was not
-- offered gets the default.
pub handle_permission-offered :
    (policy : PermissionRequest → PolicyAnswer) (default : String) (r : PermissionRequest)
    → (handle_permission (some policy) default r ≡ default)
      ⊎ (policy r ≡ decides (handle_permission (some policy) default r))
        × (is_offered r.options (handle_permission (some policy) default r) ≡ true)
unfolding handle_permission
handle_permission-offered policy default r = by_answer (policy r) refl
  where
    by_answer :
        (a : PolicyAnswer)
        → policy r ≡ a
        → (decide_by r.options default a ≡ default)
          ⊎ (policy r ≡ decides (decide_by r.options default a))
            × (is_offered r.options (decide_by r.options default a) ≡ true)
    by_answer (decides d) e =
        if_both (λ x. (x ≡ default) ⊎ (policy r ≡ decides x) × (is_offered r.options x ≡ true))
          (is_offered r.options d) d default (λ offered. inr (e, offered)) (λ _. inl refl)
    by_answer undecided e = inl refl
    by_answer throws e = inl refl
