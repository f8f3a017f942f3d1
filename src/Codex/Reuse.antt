-- ===== src/Codex/Reuse.antt =====
-- src/adapters/codex.mjs: what has to hold before a run goes on with a thread or starts a fresh one.
use floe_runtime.Prelude.{
  ◌≡◌, refl, sym, subst, String, Bool, true, false, not, Bool-cases, Option, none, some, if_both,
  inl, inr, ◌==◌, ◌&&◌, ◌||◌, includes, arith,
}
use floe_runtime.Prelude.Map
use floe_runtime.Prelude.Map.{get-set_self}
use floe_runtime.Errors.{Result, ok, err}
use package.floe_runtime.Codex.Threads.{
  Session, Threads, Thread, has_status, retire, retire_session, Request, World, put_session,
  adopt_key, goes_on, given_up, refuses, is_same_idle, look_at, after_look, may_go_on, look_back,
  with_session, previous, same_persistence, started, Got, claim, claim_started, start_fresh,
  after_previous, obtain,
}

-- A session that is not known any more, or has stopped and has no turn.
abbrev pub is_over : Threads → String → Option Session → Bool
is_over c i none = true
is_over c i (some s) = s.stopped && not (includes c.turns i)

abbrev pub may_leave : Threads → Option String → Bool
may_leave c none = true
may_leave c (some i) = is_over c i (Map.get c.sessions i)

-- Why a run got its thread. It goes on with the previous one: its session has stopped, was claimed by this
-- key or by none, the caller gave a scope, and the server has just read it as idle, with the persistence
-- that was asked for. Or it starts a new one of that persistence, and the previous one is over.
pub data Basis (r : Request) (w : World) (c : Threads) : Got → Type 0 where
  continues :
      (i : String)
      → (s : Session) → (t : Thread) → r.thread_id ≡ some i
      → Map.get c.sessions i ≡ some s
      → may_go_on r (adopt_key r.key s) ≡ true
      → w.reads i ≡ ok t
      → is_same_idle r i t ≡ true
      → Basis r w c (record { thread_id = i; reused = true })
  begins :
      (t : Thread)
      → w.starts ≡ ok t
      → same_persistence r t ≡ true
      → may_leave c r.thread_id ≡ true
      → Basis r w c (record { thread_id = t.id; reused = false })

abbrev is_ok {ℓ} : {A : Type ℓ} → Result A → Bool
is_ok (ok x) = true
is_ok (err e) = false

adopt_key-stopped : (key : String) (s : Session) → (adopt_key key s).stopped ≡ s.stopped
adopt_key-stopped key s = ground arith

module _ (r : Request) (w : World) (c : Threads) where
  abbrev AfterGot : Result Got → Type 0
  AfterGot (ok g) = Basis r w c g
  AfterGot (err e) = Unit {0}

  abbrev Based : Threads × Result Got → Type 0
  Based (d, x) = AfterGot x

  claim-Based :
      (b : Bool) (i : String) (d : Threads)
      → Basis r w c (record { thread_id = i; reused = b })
      → Based (claim r b i d)
  claim-Based b i d h = if_both Based (includes d.turns i) _ _ (λ busy. tt) (λ free. h)

  abbrev AfterStart : Result String → Type 0
  AfterStart (ok i) = Basis r w c (record { thread_id = i; reused = false })
  AfterStart (err e) = Unit {0}

  started-Based :
      (x : Result Thread) → w.starts ≡ x → may_leave c r.thread_id ≡ true → AfterStart (started r x)
  started-Based (err e) h l = tt
  started-Based (ok t) h l =
      if_both AfterStart (same_persistence r t) (ok t.id) _ (λ p. begins t h p l) (λ p. tt)

  claim_started-Based :
      (d : Threads) (x : Result String) → AfterStart x → Based (claim_started r d x)
  claim_started-Based d (err e) h = tt
  claim_started-Based d (ok i) h = claim-Based false i d h

  start_fresh-Based :
      (d : Threads) (x : Result Threads)
      → (is_ok x ≡ true → may_leave c r.thread_id ≡ true)
      → Based (start_fresh r w d x)
  start_fresh-Based d (err e) l = tt
  start_fresh-Based d (ok k) l =
      claim_started-Based k (started r w.starts) (started-Based w.starts refl (l refl))

  retired_over :
      (i : String) (d : Threads) (s : Session)
      → is_ok (retire_session i d (some s)) ≡ true
      → (s.stopped && not (includes d.turns i)) ≡ true
  retired_over i d s h = ground (arith, h)

  -- The previous session is given up.
  given_up-Based :
      (i : String) (s : Session)
      → r.thread_id ≡ some i
      → Map.get c.sessions i ≡ some s
      → (let claimed = put_session i (adopt_key r.key s) c in
          Based (start_fresh r w claimed (retire i claimed)))
  unfolding retire
  given_up-Based i s h k =
      let q = adopt_key r.key s in
      let claimed = put_session i q c in
      start_fresh-Based claimed (retire i claimed) (λ o.
        rw (h, k)
          (rw (sym (adopt_key-stopped r.key s)) (
            retired_over i claimed q (
              subst (λ x. is_ok (retire_session i claimed x) ≡ true) (get-set_self i q c.sessions)
                o))))

  unfinished_look-Based :
      (i : String) (s : Session) (x : Result Thread)
      → r.thread_id ≡ some i
      → Map.get c.sessions i ≡ some s
      → may_go_on r (adopt_key r.key s) ≡ true
      → w.reads i ≡ x
      → (let q = adopt_key r.key s in
          Based (after_previous r w (some i) (after_look i q x (put_session i q c), look_at r i x)))
  unfinished_look-Based i s (err e) h k m n =
      if_both (λ l. Based (after_previous r w (some i) (put_session i (adopt_key r.key s) c, l)))
        (e.fault_code == "rpc_error") given_up (refuses e) (λ p. given_up-Based i s h k) (λ p. tt)
  unfinished_look-Based i s (ok t) h k m n =
      elim (Bool-cases (has_status "active" t || has_status "systemError" t)) [
        | inl p ↦ rw p tt
        | inr p ↦ rw p (
            if_both
              (λ l. Based (after_previous r w (some i) (put_session i (adopt_key r.key s) c, l)))
              (is_same_idle r i t) (goes_on i) given_up
              (λ z.
                claim-Based true i (put_session i (adopt_key r.key s) c)
                  (continues i s t h k m n z))
              (λ z. given_up-Based i s h k))
      ]

  look_back-Based :
      (i : String) (s : Session)
      → r.thread_id ≡ some i
      → Map.get c.sessions i ≡ some s
      → Based (after_previous r w (some i) (look_back r w i (adopt_key r.key s) c))
  look_back-Based i s h k =
      let q = adopt_key r.key s in
      let claimed = put_session i q c in
      if_both (λ p. Based (after_previous r w (some i) p)) (may_go_on r q)
        (after_look i q (w.reads i) claimed, look_at r i (w.reads i)) (claimed, given_up)
        (λ m. unfinished_look-Based i s (w.reads i) h k m refl) (λ m. given_up-Based i s h k)

  session-Based :
      (i : String) (x : Option Session)
      → r.thread_id ≡ some i
      → Map.get c.sessions i ≡ x
      → Based (after_previous r w (some i) (with_session r w i c x))
  unfolding retire
  session-Based i none h k = start_fresh-Based c (retire i c) (λ o. rw (h, k) refl)
  session-Based i (some s) h k = look_back-Based i s h k

  thread-Based :
      (o : Option String) → r.thread_id ≡ o → Based (after_previous r w o (previous r w o c))
  thread-Based none h = start_fresh-Based c (ok c) (λ o. rw h refl)
  thread-Based (some i) h = session-Based i (Map.get c.sessions i) h refl

  -- A run goes on with a previous thread only if its session has stopped, fits the run's key and scope, and
  -- the server has just read it as idle in the persistence asked for; and it starts a fresh thread, of that
  -- persistence, only if the previous one is unknown or has stopped and has no turn.
  pub obtain-Basis : (d : Threads) (g : Got) → obtain r w c ≡ (d, ok g) → Basis r w c g
  unfolding obtain
  obtain-Basis d g h = subst Based h (thread-Based r.thread_id refl)
