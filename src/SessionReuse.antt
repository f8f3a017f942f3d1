-- ===== src/SessionReuse.antt =====
-- src/session-reuse.mjs: the registry of backend sessions that decides which of them a run may reuse.
-- Of the extra fields that `set` stores, these are the two that the Copilot adapter gives; neither replaces
-- one of the registry's own.
use floe_runtime.Prelude.{
  ◌≡◌, refl, ap, ◌⊎◌, inl, inr, ◌↔◌, String, Bool, true, false, Option, none, some, [], ◌==◌,
  eq_iff, is_some, ◌&&◌,
}
use floe_runtime.Prelude.Map
use floe_runtime.Prelude.Map.{Map}

-- `modelState` of copilot.mjs, or nothing.
pub record Extra : Type 0 where
  pub current_model_id : Option String
  pub current_effort : Option String

-- `key` is `none` for the null of a session that was resumed and not yet claimed.
pub record Session (R : Type 0) : Type 0 where
  pub key : Option String
  pub result : R
  pub stopped : Bool
  pub instance_id : Option String
  pub extra : Extra

abbrev pub SessionRegistry : Type 0 → Type 0
SessionRegistry R = Map (Session R)

abbrev key_fits : Option String → String → Bool
key_fits none key = true
key_fits (some k) key = k == key

key_fits_iff :
    (own : Option String) (key : String)
    → (key_fits own key ≡ true) ↔ ((own ≡ none) ⊎ (own ≡ some key))
key_fits_iff none key = (λ h. inl refl, λ h. refl)
key_fits_iff (some k) key = (
  λ h. inr (ap some ((eq_iff k key).0 h)),
  λ h. elim h [ inl p ↦ absurd (cc) | inr p ↦ (eq_iff k key).1 (cc) ],
)

module _ {R : Type 0} where
  unfoldable pub set :
      SessionRegistry R → String → Option String → R → Option String → Extra → SessionRegistry R
  set sessions id key result instance_id extra = Map.set sessions id (record {
    key = key;
    result = result;
    stopped = false;
    instance_id = instance_id;
    extra = extra;
  })

  unfoldable pub get : SessionRegistry R → String → Option (Session R)
  get sessions id = Map.get sessions id

  unfoldable pub has : SessionRegistry R → String → Bool
  has sessions id = is_some (Map.get sessions id)

  abbrev stop_entry : SessionRegistry R → String → Option (Session R) → SessionRegistry R
  stop_entry sessions id none = sessions
  stop_entry sessions id (some entry) = Map.set sessions id (record entry { stopped = true })

  unfoldable pub mark_stopped : SessionRegistry R → String → SessionRegistry R
  mark_stopped sessions id = stop_entry sessions id (Map.get sessions id)

  unfoldable pub delete : SessionRegistry R → String → SessionRegistry R
  delete sessions id = Map.delete sessions id

  unfoldable pub clear : SessionRegistry R → SessionRegistry R
  clear sessions = []

  abbrev pub entry_reusable : Option (Session R) → String → Bool
  entry_reusable none key = false
  entry_reusable (some entry) key = entry.stopped && key_fits entry.key key

  unfoldable pub is_reusable : SessionRegistry R → String → String → Bool
  is_reusable sessions id key = entry_reusable (Map.get sessions id) key

  stop_entry_other :
      (sessions : SessionRegistry R) (id other key : String) (e : Option (Session R))
      → (id == other) ≡ false
      → entry_reusable (Map.get (stop_entry sessions id e) other) key
        ≡ entry_reusable (Map.get sessions other) key
  stop_entry_other sessions id other key none h = refl
  stop_entry_other sessions id other key (some e) h = simp (Map.get-set, h)

  -- A session that has just been set is not reusable until its stop is confirmed; then it is
  -- reusable by exactly the key that it was set with, or by every key if that was null. Deleting it
  -- or clearing the registry makes it unusable.
  pub is_reusable-after_stop :
      (sessions : SessionRegistry R) (id key : String) (own : Option String) (result : R)
      (instance_id : Option String) (extra : Extra)
      → (is_reusable (set sessions id own result instance_id extra) id key ≡ false)
        × ((is_reusable (mark_stopped (set sessions id own result instance_id extra) id) id key
              ≡ true)
            ↔ ((own ≡ none) ⊎ (own ≡ some key)))
        × (is_reusable (delete sessions id) id key ≡ false)
        × (is_reusable (clear sessions) id key ≡ false)
  unfolding is_reusable set mark_stopped delete clear Map.get
  is_reusable-after_stop sessions id key own result instance_id extra = (
    simp Map.get-set_self,
    simp Map.get-set_self (key_fits_iff own key),
    simp Map.get-delete_self,
    refl,
  )

  -- Setting, stopping or deleting one session does not change whether a session with another id is
  -- reusable.
  pub is_reusable_other :
      (sessions : SessionRegistry R) (id other key : String) (own : Option String) (result : R)
      (instance_id : Option String) (extra : Extra)
      → (id == other) ≡ false
      → (is_reusable (set sessions id own result instance_id extra) other key
          ≡ is_reusable sessions other key)
        × (is_reusable (mark_stopped sessions id) other key ≡ is_reusable sessions other key)
        × (is_reusable (delete sessions id) other key ≡ is_reusable sessions other key)
  unfolding is_reusable set mark_stopped delete
  is_reusable_other sessions id other key own result instance_id extra h = (
    simp (Map.get-set, h),
    stop_entry_other sessions id other key (Map.get sessions id) h,
    simp (Map.get-delete, h),
  )
