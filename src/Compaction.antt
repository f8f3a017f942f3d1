-- ===== src/Compaction.antt =====
-- src/compaction.mjs: compaction events and results, and the settings of automatic compaction. Figures
-- that a backend does not report are `none`; the copy of the raw event is left out. A number with a
-- fraction is known by its text, and the ratio that the text denotes is a parameter.
use floe_runtime.Prelude.{
  ℕ, ◌≡◌, refl, String, Bool, true, false, not, Option, none, some, List, [], ◌∷◌, if◌then◌else◌,
  if_both, ◌==◌, ◌&&◌, ◌||◌, ◌≤◌, ◌<◌, ltb, leb, arith,
}
use floe_runtime.Prelude.Map
use floe_runtime.Prelude.Map.{Map}
use floe_runtime.Errors.{◌⧺◌}
use floe_runtime.Json.{
  Value, null, bool, num, str, arr, obj, Number, integer, fraction, fields_of, Fields,
}
use floe_runtime.CopilotTools.Patch.{Attempt, thrown, returned, ◌>>=◌, raise}

-- What an adapter reports of a compaction.
pub record Figures : Type 0 where
  pub trigger : Option String
  pub tokens_before : Option ℕ
  pub tokens_after : Option ℕ
  pub tokens_removed : Option ℕ
  pub messages_removed : Option ℕ
  pub focus : Option String
  pub summary : Option String
  pub error : Option String

abbrev pub no_figures : Figures
no_figures = record {
  trigger = none;
  tokens_before = none;
  tokens_after = none;
  tokens_removed = none;
  messages_removed = none;
  focus = none;
  summary = none;
  error = none;
}

-- `compactionEvent`
pub record CompactionEvent : Type 0 where
  pub runtime : String
  pub session_id : String
  pub phase : String
  pub figures : Figures

-- `compactResult`
pub record CompactResult : Type 0 where
  pub runtime : String
  pub session_id : String
  pub success : Option Bool
  pub tokens_removed : Option ℕ
  pub messages_removed : Option ℕ
  pub summary : Option String
  pub error : Option String

-- What the SDK's event carries. `pre` and `current` are `preCompactionTokens` and `currentTokens`.
pub record SdkData : Type 0 where
  pub trigger : Option String
  pub current : Option ℕ
  pub pre : Option ℕ
  pub post : Option ℕ
  pub tokens_removed : Option ℕ
  pub messages_removed : Option ℕ
  pub instructions : Option String
  pub summary : Option String
  pub error : Option String
  pub success : Option Bool

abbrev completed_phase : Option Bool → String
completed_phase (some false) = "failed"
completed_phase _ = "completed"

-- `copilotCompactionEvent`
unfoldable pub copilot_compaction_event :
    String → (kind : String) → SdkData → Option CompactionEvent
copilot_compaction_event session kind d =
    if kind == "session.compaction_start"
    then some (record {
      runtime = "copilot";
      session_id = session;
      phase = "started";
      figures = record no_figures { trigger = d.trigger; tokens_before = d.current };
    })
    else if kind == "session.compaction_complete"
    then some (record {
      runtime = "copilot";
      session_id = session;
      phase = completed_phase d.success;
      figures = record {
        trigger = d.trigger;
        tokens_before = d.pre;
        tokens_after = d.post;
        tokens_removed = d.tokens_removed;
        messages_removed = d.messages_removed;
        focus = d.instructions;
        summary = d.summary;
        error = d.error;
      };
    })
    else none

abbrev type_error {ℓ} : {V : Type ℓ} → String → Attempt V
type_error m = raise "TypeError" m

abbrev is_threshold_key : String → Bool
is_threshold_key k = k == "backgroundCompactionThreshold" || k == "bufferExhaustionThreshold"

-- The loop over the keys.
unfoldable pub check_keys : String → List (String × Value) → Attempt (Unit {0})
check_keys label [] = returned tt
check_keys label ((k, v) ∷ fs) =
    if k == "enabled" || is_threshold_key k
    then check_keys label fs
    else type_error ("Copilot " ⧺ label ⧺ "." ⧺ k ⧺ " is not a known setting.")

abbrev check_enabled : String → Option Value → Attempt (Unit {0})
check_enabled label none = returned tt
check_enabled label (some (bool b)) = returned tt
check_enabled label (some v) = type_error ("Copilot " ⧺ label ⧺ ".enabled must be a boolean.")

-- A number by its sign, numerator and denominator.
pub record Ratio : Type 0 where
  pub negative : Bool
  pub numerator : ℕ
  pub denominator : ℕ

module _ (ratio : String → Ratio) where
  abbrev pub ratio_of : Number → Ratio
  ratio_of (integer negative n) = record { negative = negative; numerator = n; denominator = 1 }
  ratio_of (fraction t) = ratio t

  -- `threshold > 0 && threshold <= 1`
  abbrev pub fits : Ratio → Bool
  fits n = not n.negative && ltb 0 n.numerator && leb n.numerator n.denominator

  abbrev pub check_threshold : String → String → Option Value → Attempt (Unit {0})
  check_threshold label key none = returned tt
  check_threshold label key (some (num n)) =
      if fits (ratio_of n)
      then returned tt
      else type_error ("Copilot " ⧺ label ⧺ "." ⧺ key ⧺ " must be a number above 0 and at most 1.")
  check_threshold label key (some v) =
      type_error ("Copilot " ⧺ label ⧺ "." ⧺ key ⧺ " must be a number above 0 and at most 1.")

  -- `normalizeInfiniteSessions`: `none` for undefined.
  unfoldable pub normalize_infinite_sessions : String → Option Value → Attempt (Option (Map Value))
  unfolding check_keys
  normalize_infinite_sessions label none = returned none
  normalize_infinite_sessions label (some (obj fs)) =
      let settings = fields_of fs in
      check_keys label settings >>= λ _. check_enabled label (Map.get settings "enabled") >>= λ _.
      check_threshold label "backgroundCompactionThreshold"
        (Map.get settings "backgroundCompactionThreshold")
      >>= λ _.
          check_threshold label "bufferExhaustionThreshold"
            (Map.get settings "bufferExhaustionThreshold")
          >>= λ _. returned (some settings)
  normalize_infinite_sessions label (some v) =
      type_error ("Copilot " ⧺ label ⧺ " must be an object.")

  -- A number above 0 and at most 1.
  abbrev pub IsShare : Number → Type 0
  IsShare (integer negative n) = (negative ≡ false) × (n ≡ 1)
  IsShare (fraction t) =
      ((ratio t).negative ≡ false)
      × (0 < (ratio t).numerator)
      × ((ratio t).numerator ≤ (ratio t).denominator)

  -- A value that a threshold may have.
  abbrev pub IsThreshold : Option Value → Type 0
  IsThreshold none = Unit {0}
  IsThreshold (some (num n)) = IsShare n
  IsThreshold (some v) = ⊥

  fits-IsShare : (n : Number) → fits (ratio_of n) ≡ true → IsShare n
  fits-IsShare (integer negative n) h = ground arith
  fits-IsShare (fraction t) h = ground arith

  check_threshold-passes :
      (label key : String) (o : Option Value)
      → check_threshold label key o ≡ returned tt
      → IsThreshold o
  check_threshold-passes label key none h = tt
  check_threshold-passes label key (some (num n)) h =
      if_both (λ (r : Attempt (Unit {0})). r ≡ returned tt → IsShare n) (fits (ratio_of n)) _ _
        (λ p _. fits-IsShare n p) (λ _ q. absurd (cc)) h
  check_threshold-passes label key (some null) h = absurd (cc)
  check_threshold-passes label key (some (bool b)) h = absurd (cc)
  check_threshold-passes label key (some (str s)) h = absurd (cc)
  check_threshold-passes label key (some (arr vs)) h = absurd (cc)
  check_threshold-passes label key (some (obj fs)) h = absurd (cc)

  bound {ℓ κ} :
      {V : Type ℓ} {W : Type κ} (a : Attempt V) (next : V → Attempt W) (w : W)
      → (a >>= next) ≡ returned w
      → (v : V) × (a ≡ returned v) × (next v ≡ returned w)
  bound (thrown problem) next w h = absurd (cc)
  bound (returned v) next w h = (v, refl, h)

  -- Settings that are accepted are returned as they are, and each threshold among them is absent or a
  -- number above 0 and at most 1.
  pub normalize_infinite_sessions-checked :
      (label : String) (fs : Fields) (settings : Map Value)
      → normalize_infinite_sessions label (some (obj fs)) ≡ returned (some settings)
      → (settings ≡ fields_of fs)
        × IsThreshold (Map.get settings "backgroundCompactionThreshold")
        × IsThreshold (Map.get settings "bufferExhaustionThreshold")
  unfolding normalize_infinite_sessions
  normalize_infinite_sessions-checked label fs settings h =
      let (_, _, a) = bound (check_keys label (fields_of fs)) _ _ h in
      let (_, _, b) = bound (check_enabled label (Map.get (fields_of fs) "enabled")) _ _ a in
      let (u, p, c) =
        bound
          (check_threshold label "backgroundCompactionThreshold"
            (Map.get (fields_of fs) "backgroundCompactionThreshold"))
          _ _ b in
      let (v, q, d) =
        bound
          (check_threshold label "bufferExhaustionThreshold"
            (Map.get (fields_of fs) "bufferExhaustionThreshold"))
          _ _ c in
      let same : settings ≡ fields_of fs = cc in
      (
        same,
        rw same (check_threshold-passes label _ _ p),
        rw same (check_threshold-passes label _ _ q),
      )
