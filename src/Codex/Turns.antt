-- ===== src/Codex/Turns.antt =====
-- Which events reach a turn.
use floe_runtime.Prelude.{
  ℕ, ◌⊎◌, inl, inr, sym, subst, if_both, eq_iff, List, [], ◌∷◌, ◌++◌, ◌≡◌, refl, ap, ◌∙◌, String,
  false, not, Option, none, some, if◌then◌else◌, if_true, if_false, ◌==◌, is_some,
}
use floe_runtime.Prelude.Map
use floe_runtime.Errors.{Result}
use floe_runtime.Codex.{
  Task, Codex, Notice, turn_started, item_started, item_completed, token_usage, stream,
  turn_completed, silent, adopt, other_turn, notify_task, on_notification, put, tell, Item, Signal,
  published, report_item, report_compaction,
}

-- A compaction is an item of one kind that starts or completes.
abbrev pub IsCompaction : Notice → Type 0
IsCompaction n =
    (i : Item) × ((n ≡ item_started i) ⊎ (n ≡ item_completed i)) × (i.kind ≡ "contextCompaction")

-- What an event of another turn than the running one leaves: the turn, but for the time of the last
-- activity, and what was published, but for a compaction.
pub record Ignored (now : ℕ) (thread : String) (t : Task) (n : Notice) (c d : Codex) : Type 0 where
  pub same_turn : Map.get d.turns thread ≡ some (record t { last_activity = now })
  pub others : (k : String) → (thread == k) ≡ false → Map.get d.turns k ≡ Map.get c.turns k
  pub same_requests : d.requests ≡ c.requests
  pub started :
      (i : Item)
      → n ≡ item_started i
      → i.kind ≡ "contextCompaction"
      → d.signals ≡ published thread "compaction" "started" ∷ c.signals
  pub completed :
      (i : Item)
      → n ≡ item_completed i
      → i.kind ≡ "contextCompaction"
      → d.signals ≡ published thread "compaction" "completed" ∷ c.signals
  pub silent_else : ¬ IsCompaction n → d.signals ≡ c.signals

abbrev add_signals : List Signal → Codex → Codex
add_signals ss c = record c { signals = ss ++ c.signals }

report_item-turns :
    (phase thread : String) (i : Item) (c : Codex)
    → (ss : List Signal) × (report_item phase thread i c ≡ add_signals ss c)
report_item-turns phase thread i c =
    if_both (λ (d : Codex). (ss : List Signal) × (d ≡ add_signals ss c))
      (i.kind == "contextCompaction") _ _ (λ k. (published thread "compaction" phase ∷ [], refl))
      (λ k. ([], refl))

-- Reporting a compaction only publishes.
report_compaction-turns :
    (thread : String) (n : Notice) (c : Codex)
    → (ss : List Signal) × (report_compaction thread n c ≡ add_signals ss c)
report_compaction-turns thread (item_started i) c = report_item-turns "started" thread i c
report_compaction-turns thread (item_completed i) c = report_item-turns "completed" thread i c
report_compaction-turns thread turn_started c = ([], refl)
report_compaction-turns thread token_usage c = ([], refl)
report_compaction-turns thread (stream k) c = ([], refl)
report_compaction-turns thread (turn_completed e) c = ([], refl)
report_compaction-turns thread silent c = ([], refl)

reported_item :
    (phase thread : String) (i : Item) (c : Codex)
    → i.kind ≡ "contextCompaction"
    → report_item phase thread i c ≡ tell (published thread "compaction" phase) c
reported_item phase thread i c k = if_true _ _ _ ((eq_iff i.kind "contextCompaction").1 k)

unreported_item :
    (phase thread : String) (i : Item) (c : Codex)
    → ¬ (i.kind ≡ "contextCompaction")
    → report_item phase thread i c ≡ c
unreported_item phase thread i c k =
    if_both (λ (d : Codex). d ≡ c) (i.kind == "contextCompaction") _ _
      (λ same. absurd (k ((eq_iff i.kind "contextCompaction").0 same))) (λ differs. refl)

unreported :
    (thread : String) (n : Notice) (c : Codex) → ¬ IsCompaction n → report_compaction thread n c ≡ c
unreported thread (item_started i) c h =
    unreported_item "started" thread i c (λ k. h (i, inl refl, k))
unreported thread (item_completed i) c h =
    unreported_item "completed" thread i c (λ k. h (i, inr refl, k))
unreported thread turn_started c h = refl
unreported thread token_usage c h = refl
unreported thread (stream k) c h = refl
unreported thread (turn_completed e) c h = refl
unreported thread silent c h = refl

module _ (extract : String → Result String) (now : ℕ) (thread event own : String) (t : Task) where
  abbrev seen : Task
  seen = record t { last_activity = now }

  adopt_known : (n : Notice) → t.turn_id ≡ some own → adopt n (some event) seen ≡ seen
  adopt_known turn_started h = ap (λ o. record seen { turn_id = o }) (by_id t.turn_id h)
    where
      by_id : (o : Option String) → o ≡ some own → (if is_some o then o else some event) ≡ o
      by_id none q = absurd (cc)
      by_id (some k) q = refl
  adopt_known (item_started i) h = refl
  adopt_known (item_completed i) h = refl
  adopt_known token_usage h = refl
  adopt_known (stream k) h = refl
  adopt_known (turn_completed e) h = refl
  adopt_known silent h = refl

  dropped :
      (n : Notice) (c : Codex)
      → t.turn_id ≡ some own
      → (event == own) ≡ false
      → notify_task extract now thread (some event) n c (some t) ≡ put thread seen c
  dropped n c k d =
      let other' =
        ap (λ (u : Task). other_turn (some event) u.turn_id) (adopt_known n k)
        ∙ ap (other_turn (some event)) k
        ∙ ap not d in
      if_true (other_turn (some event) (adopt n (some event) seen).turn_id) _ _ other'
      ∙ ap (λ u. put thread u c) (adopt_known n k)

  put-Ignored :
      (n : Notice) (c : Codex)
      → Ignored now thread t n c (put thread seen (report_compaction thread n c))
  put-Ignored n c =
      let (ss, e) = report_compaction-turns thread n c in
      record {
        same_turn =
            ap (λ (d : Codex). Map.get (put thread seen d).turns thread) e
            ∙ Map.get-set_self thread seen c.turns;
        others = λ k differs.
            ap (λ (d : Codex). Map.get (put thread seen d).turns k) e
            ∙ Map.get-set thread k seen c.turns
            ∙ if_false (thread == k) _ _ differs;
        same_requests = ap (λ (d : Codex). d.requests) e;
        started = λ i m k.
            ap (λ x. (report_compaction thread x c).signals) m
            ∙ ap (λ (d : Codex). d.signals) (reported_item "started" thread i c k);
        completed = λ i m k.
            ap (λ x. (report_compaction thread x c).signals) m
            ∙ ap (λ (d : Codex). d.signals) (reported_item "completed" thread i c k);
        silent_else = λ h. ap (λ (d : Codex). d.signals) (unreported thread n c h);
      }

  -- An event that names another turn than the one that runs on its thread does nothing but to publish the
  -- compaction that it reports, if it does, and to note the time: it settles nothing, publishes nothing
  -- else, and leaves every turn and every request as it is.
  pub on_notification-stale :
      (c : Codex) (n : Notice)
      → Map.get c.turns thread ≡ some t
      → t.turn_id ≡ some own
      → (event == own) ≡ false
      → Ignored now thread t n c (on_notification extract now c thread (some event) n)
  unfolding on_notification
  on_notification-stale c n h k d =
      subst (Ignored now thread t n c)
        (sym (
          ap (notify_task extract now thread (some event) n (report_compaction thread n c)) h
          ∙ dropped n (report_compaction thread n c) k d))
        (put-Ignored n c)
