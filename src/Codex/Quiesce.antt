-- ===== src/Codex/Quiesce.antt =====
-- src/adapters/codex.mjs: `quiesce`, which confirms that a thread has stopped. What the server answers is a
-- parameter. The call is taken from its start to its end, with no other between its awaits.
use floe_runtime.Prelude.{
  ◌≡◌, refl, ap, subst, ◌∙◌, String, Bool, true, false, not, Option, none, some, if◌then◌else◌,
  List, [], ◌∷◌, ◌&&◌, ◌||◌, includes, is_some,
}
use floe_runtime.Prelude.Map
use floe_runtime.Prelude.Map.{get-set_self}
use floe_runtime.Errors.{RuntimeFault, Result, ok, err, fault, ◌>>=◌, ◌>>◌}
use package.floe_runtime.Codex.Threads.{Session, Threads, Thread, has_status, put_session}

-- What `thread/backgroundTerminals/list` answers: the terminals, if it is a list, and the next page.
pub record Page : Type 0 where
  pub terminals : Option (List String)
  pub next : Option String

-- The answers while a thread is quiesced: to interrupting its turn and the turn's end in time, to the first
-- read, to interrupting what is in progress, whether the thread reports idle in time, to the second read,
-- to listing the terminals page by page, to terminating them, and to the last listing.
pub record Stopping : Type 0 where
  pub interrupts : Result (Unit {0})
  pub settles : Bool
  pub first : Result Thread
  pub interrupts_each : Result (Unit {0})
  pub reports_idle : Bool
  pub second : Result Thread
  pub pages : List (Result Page)
  pub terminates : Result (Unit {0})
  pub last : Result Page

abbrev unknown_quiescence : String → RuntimeFault
unknown_quiescence m = fault "quiescence_unknown" m 409

abbrev pub require : Bool → String → Result (Unit {0})
require b m = if b then ok tt else err (unknown_quiescence m)

abbrev none_of {ℓ} : {A : Type ℓ} → List A → Bool
none_of [] = true
none_of (x ∷ xs) = false

abbrev pub is_at_rest : Thread → Bool
is_at_rest t = not (has_status "active" t) && none_of t.in_progress

abbrev pub needs_signal : Thread → Bool
needs_signal t = not (none_of t.in_progress) || has_status "active" t

abbrev pub stop_turn : Stopping → Bool → Result (Unit {0})
stop_turn q false = ok tt
stop_turn q true =
    q.interrupts >> require q.settles "The active turn has not confirmed interruption."

abbrev interrupt_listed : Stopping → List String → Result (Unit {0})
interrupt_listed q [] = ok tt
interrupt_listed q (i ∷ is) = q.interrupts_each

abbrev pub read_again : Stopping → Thread → Result Thread
read_again q t =
    if needs_signal t
    then interrupt_listed q t.in_progress
      >> (require q.reports_idle "Timed out waiting for the thread to report idle." >> q.second)
    else ok t

abbrev terminate_listed : Stopping → List String → Result (Unit {0})
terminate_listed q [] = ok tt
terminate_listed q (i ∷ is) = q.terminates

abbrev terminate_page : Stopping → Option (List String) → Result (Unit {0})
terminate_page q none = err (
    unknown_quiescence
      "Runtime could not enumerate background terminals. Workspace changes remain blocked.")
terminate_page q (some is) = terminate_listed q is

abbrev unanswered : Result (Unit {0})
unanswered = err (unknown_quiescence "A page was not answered.")

-- The pages until one has no next; a page that is never answered blocks the loop, here as a fault.
abbrev pub terminate_pages : Stopping → List (Result Page) → Result (Unit {0})
terminate_pages q [] = unanswered
terminate_pages q (err e ∷ ps) = err e
terminate_pages q (ok p ∷ ps) =
    let rest = terminate_pages q ps in
    terminate_page q p.terminals >> (if is_some p.next then rest else ok tt)

abbrev pub lists_nothing : Page → Bool
lists_nothing p = elim p.terminals [ none ↦ false | some is ↦ none_of is ] && not (is_some p.next)

abbrev pub stop_thread : Stopping → Bool → Result (Unit {0})
stop_thread q busy =
    stop_turn q busy
    >> (q.first >>= λ t. read_again q t >>= λ u.
        require (is_at_rest u)
          "The runtime still has an active turn. Restoring or accepting a workspace is blocked."
        >> (terminate_pages q q.pages
            >> (q.last >>= λ p.
                require (lists_nothing p) "Runtime still reports background work.")))

abbrev pub stop_session : String → Option Session → Threads → Threads
stop_session i none c = c
stop_session i (some s) c = put_session i (record s { stopped = true }) c

abbrev pub after_stop : String → Threads → Result (Unit {0}) → Threads × Result (Unit {0})
after_stop i c (ok u) = (stop_session i (Map.get c.sessions i) c, ok u)
after_stop i c (err e) = (c, err e)

-- `quiesce`
unfoldable pub quiesce : Stopping → String → Threads → Threads × Result (Unit {0})
quiesce q i c = after_stop i c (stop_thread q (includes c.turns i))

bind_ok {ℓ κ} :
    {A : Type ℓ} {B : Type κ} (r : Result A) (f : A → Result B) (y : B)
    → (r >>= f) ≡ ok y
    → (x : A) × ((r ≡ ok x) × (f x ≡ ok y))
bind_ok (ok x) f y h = (x, (refl, h))
bind_ok (err e) f y h = absurd (cc)

require_ok : (b : Bool) (m : String) (u : Unit {0}) → require b m ≡ ok u → b ≡ true
require_ok true m u h = refl
require_ok false m u h = absurd (cc)

abbrev stopped_entry : Option Session → Option Session
stopped_entry none = none
stopped_entry (some s) = some (record s { stopped = true })

get-stop_session :
    (i : String) (c : Threads) (o : Option Session)
    → Map.get c.sessions i ≡ o
    → Map.get (stop_session i o c).sessions i ≡ stopped_entry o
get-stop_session i c none h = h
get-stop_session i c (some s) h = get-set_self i (record s { stopped = true }) c.sessions

-- What is known when a thread has been quiesced: the last read of it shows no turn and no activity, the
-- last listing shows no background terminal, and its session, if it has one, is marked as stopped.
pub record AtRest (q : Stopping) (i : String) (c d : Threads) : Type 0 where
  pub thread : Thread
  pub page : Page
  pub seen : (q.first >>= λ t. read_again q t) ≡ ok thread
  pub rests : is_at_rest thread ≡ true
  pub listed : q.last ≡ ok page
  pub nothing : lists_nothing page ≡ true
  pub marked : Map.get d.sessions i ≡ stopped_entry (Map.get c.sessions i)

module _ (q : Stopping) (i : String) (c : Threads) where
  -- What the thread and its terminals have to show, and what is marked.
  record Confirmed : Type 0 where
    thread : Thread
    page : Page
    seen : (q.first >>= λ t. read_again q t) ≡ ok thread
    rests : is_at_rest thread ≡ true
    listed : q.last ≡ ok page
    nothing : lists_nothing page ≡ true

  stop_thread-Confirmed : (busy : Bool) (v : Unit {0}) → stop_thread q busy ≡ ok v → Confirmed
  stop_thread-Confirmed busy v h =
      let a = bind_ok (stop_turn q busy) _ v h in
      let b = bind_ok q.first _ v a.1.1 in
      let d = bind_ok (read_again q b.0) _ v b.1.1 in
      let e = bind_ok _ _ v d.1.1 in
      let f = bind_ok (terminate_pages q q.pages) _ v e.1.1 in
      let g = bind_ok q.last _ v f.1.1 in
      record {
        thread = d.0;
        page = g.0;
        seen = ap (λ r. r >>= λ t. read_again q t) b.1.0 ∙ d.1.0;
        rests = require_ok (is_at_rest d.0) _ e.0 e.1.0;
        listed = g.1.0;
        nothing = require_ok (lists_nothing g.0) _ v g.1.1;
      }

  after_stop-AtRest :
      (x : Result (Unit {0})) (d : Threads) (v : Unit {0})
      → stop_thread q (includes c.turns i) ≡ x
      → after_stop i c x ≡ (d, ok v)
      → AtRest q i c d
  after_stop-AtRest (err e) d v h k = absurd (cc)
  after_stop-AtRest (ok u) d v h k =
      let s = stop_thread-Confirmed (includes c.turns i) u h in
      record {
        thread = s.thread;
        page = s.page;
        seen = s.seen;
        rests = s.rests;
        listed = s.listed;
        nothing = s.nothing;
        marked =
            subst (λ e. Map.get e.sessions i ≡ stopped_entry (Map.get c.sessions i))
              (ap (λ p. p.0) k) (get-stop_session i c (Map.get c.sessions i) refl);
      }

  -- If `quiesce` returns, the last read of the thread shows no turn and no activity, the last listing shows
  -- no background terminal, and the thread's session, if it has one, is marked as stopped.
  pub quiesce-AtRest : (d : Threads) (v : Unit {0}) → quiesce q i c ≡ (d, ok v) → AtRest q i c d
  unfolding quiesce
  quiesce-AtRest d v h = after_stop-AtRest (stop_thread q (includes c.turns i)) d v refl h
