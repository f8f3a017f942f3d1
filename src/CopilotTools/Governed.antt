-- ===== src/CopilotTools/Governed.antt =====
-- What an allowed call has passed: the manifest, the policy, and the policy again if it was changed.
use floe_runtime.Prelude.{
  ◌≡◌, refl, ap, sym, ◌∙◌, if_false, ◌⊎◌, inl, inr, String, false, Option, none, some, if_both,
  ◌==◌, eq_iff, ◌||◌,
}
use floe_runtime.Errors.{◌⧺◌}
use floe_runtime.Json.{Value}
use floe_runtime.CopilotTools.Patch.{Attempt, thrown, returned, ◌>>=◌}
use floe_runtime.CopilotTools.Facts.{Input, Call, normalize_call}
use floe_runtime.CopilotTools.Selection.{Selection}
use floe_runtime.CopilotTools.Hook.{
  Answer, answers, fails, never, Outcome, Policy, Permission, allow, Named, named_call, judged,
  decide_policy, Verdict, proceed, block, change, unsupported, changed_by, recheck, verdict_on,
  Before, decide_before, custom_tool, unless_refused, decide_builtin, fail_closed, rebuild_call,
  builtin_permission, tool_hook, with_timeout, denied,
}

-- The policy answers in time that the call is allowed.
abbrev pub Approved : Policy → Call → Type 0
Approved p c = (o : Outcome) × (p c ≡ answers o) × (o.decision ≡ some "allow_once")

-- The arguments are those of the call, or others that the policy has been asked about.
abbrev pub Rechecked : Policy → (Value → Attempt Call) → Option Value → Type 0
Rechecked p rebuild m =
    (m ≡ none)
    ⊎ (args : Value) × (m ≡ some args) × (c : Call) × (rebuild args ≡ returned c) × Approved p c

fail_closed-allows :
    (request : Named) (r : Attempt Permission) (m : Option Value)
    → fail_closed request r ≡ allow m
    → r ≡ returned (allow m)
unfolding denied
fail_closed-allows request (thrown problem) m h = absurd (cc)
fail_closed-allows request (returned q) m h = ap returned h

-- A decision of the policy that lets the call go on is an approval, and a refusal allows nothing.
abbrev Decided : Policy → Call → Attempt (Option Permission) → Type 0
Decided p c (thrown problem) = Unit {0}
Decided p c (returned none) = Approved p c
Decided p c (returned (some refusal)) = (m : Option Value) → refusal ≡ allow m → ⊥

judged-Decided :
    (p : Policy) (c : Call) (o : Outcome) (d : Option String)
    → p c ≡ answers o
    → o.decision ≡ d
    → Decided p c (returned (judged o c d))
unfolding denied
judged-Decided p c o none e q = λ m r. cc
judged-Decided p c o (some d) e q =
    if_both (λ r. Decided p c (returned r)) (d == "allow_once") _ _
      (λ same. (o, e, q ∙ ap some ((eq_iff d "allow_once").0 same)))
      (λ _.
        if_both (λ r. Decided p c (returned r)) (d == "reject_once" || d == "cancel") _ _
          (λ _ m r. cc) (λ _ m r. cc))

decide_policy-Decided : (p : Policy) (c : Call) → Decided p c (decide_policy p c)
unfolding decide_policy
decide_policy-Decided p c = by_answer (p c) refl
  where
    by_answer :
        (a : Answer Outcome)
        → p c ≡ a
        → Decided p c (
            with_timeout a "tool_policy_timeout"
              ("Floe did not decide tool call '" ⧺ c.id ⧺ "' before the policy timeout.")
            >>= λ o. returned (judged o c o.decision))
    by_answer (answers o) e = judged-Decided p c o o.decision e refl
    by_answer (fails problem) e = tt
    by_answer never e = tt

unless_refused-allows :
    (p : Policy) (c : Call) (m : Option Value) (next : Attempt Permission)
    (r : Attempt (Option Permission))
    → Decided p c r
    → (r >>= λ refusal. unless_refused refusal next) ≡ returned (allow m)
    → Approved p c × (next ≡ returned (allow m))
unless_refused-allows p c m next (thrown problem) d h = absurd (cc)
unless_refused-allows p c m next (returned none) d h = (d, h)
unless_refused-allows p c m next (returned (some refusal)) d h = absurd (d m (cc))

changed_by-allows :
    (p : Policy) (c : Call) (m : Option Value) (args : Value) (r : Attempt (Option Permission))
    → Decided p c r
    → (r >>= λ refusal. returned (changed_by args refusal)) ≡ returned (allow m)
    → Approved p c × (m ≡ some args)
changed_by-allows p c m args (thrown problem) d h = absurd (cc)
changed_by-allows p c m args (returned none) d h = (d, cc)
changed_by-allows p c m args (returned (some refusal)) d h = absurd (d m (cc))

module _ (p : Policy) (rebuild : Value → Attempt Call) (m : Option Value) where
  recheck-allows :
      (args : Value) (r : Attempt Call)
      → rebuild args ≡ r
      → recheck (some p) args r ≡ returned (allow m)
      → Rechecked p rebuild m
  recheck-allows args (thrown problem) e h = absurd (cc)
  recheck-allows args (returned c) e h =
      let (a, q) = changed_by-allows p c m args (decide_policy p c) (decide_policy-Decided p c) h in
      inr (args, q, c, e, a)

  verdict_on-allows :
      (request : Named) (v : Verdict)
      → verdict_on (some p) request (some rebuild) v ≡ returned (allow m)
      → Rechecked p rebuild m
  unfolding denied
  verdict_on-allows request proceed h = inl (cc)
  verdict_on-allows request (block reason) h = absurd (cc)
  verdict_on-allows request (change none) h = absurd (cc)
  verdict_on-allows request (change (some args)) h = recheck-allows args (rebuild args) refl h
  verdict_on-allows request (unsupported printed) h = absurd (cc)

  answer-allows :
      (request : Named) (k t : String) (a : Answer Verdict)
      → (with_timeout a k t >>= λ v. verdict_on (some p) request (some rebuild) v)
        ≡ returned (allow m)
      → Rechecked p rebuild m
  answer-allows request k t (answers v) h = verdict_on-allows request v h
  answer-allows request k t (fails problem) h = absurd (cc)
  answer-allows request k t never h = absurd (cc)

  decide_before-allows :
      (before : Option Before) (input : Input) (request : Named)
      → decide_before (some p) before input request (some rebuild) ≡ returned (allow m)
      → Rechecked p rebuild m
  decide_before-allows none input request h = inl (cc)
  decide_before-allows (some b) input request h = answer-allows request _ _ (b input) h

  builtin_permission-allows :
      (before : Option Before) (input : Input) (r : Attempt Call)
      → builtin_permission (some p) before input rebuild r ≡ allow m
      → (c : Call) × (r ≡ returned c) × Approved p c × Rechecked p rebuild m
  unfolding denied decide_builtin
  builtin_permission-allows before input (thrown problem) h = absurd (cc)
  builtin_permission-allows before input (returned c) h =
      let (a, n) =
        unless_refused-allows p c m _ (decide_policy p c) (decide_policy-Decided p c) (
          fail_closed-allows (named_call c) (decide_builtin (some p) before input rebuild c) m h) in
      (c, refl, a, decide_before-allows before input (named_call c) n)

-- Where a policy is given, the hook allows a call of a tool that is not the caller's own only if the
-- call can be normalized and the policy answers in time that it is allowed once; and if the
-- permission changes the arguments, the changed call can be normalized too and the policy answers the
-- same of it. So errors, timeouts and every other answer deny the call, and `beforeToolUse` cannot
-- widen what the policy denies.
pub tool_hook-respects_policy :
    (s : Selection) (p : Policy) (before : Option Before) (input : Input) (session : Option String)
    (id : String) (m : Option Value)
    → custom_tool s input ≡ false
    → tool_hook s (some p) before input session id ≡ allow m
    → (c : Call) × (normalize_call s.builtins input session id ≡ returned c)
      × Approved p c
      × Rechecked p (rebuild_call s input session id) m
unfolding tool_hook
tool_hook-respects_policy s p before input session id m custom h =
    builtin_permission-allows p (rebuild_call s input session id) m before input
      (normalize_call s.builtins input session id)
      (sym (if_false (custom_tool s input) _ _ custom) ∙ h)
