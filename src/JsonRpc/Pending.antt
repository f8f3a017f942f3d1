-- ===== src/JsonRpc/Pending.antt =====
-- Requests and their answers: which promise a message settles, and that it is settled once.
use floe_runtime.Prelude.{
  ℕ, suc, ◌≡◌, refl, ap, ◌∙◌, String, true, Option, none, some, ◌∷◌, arith, if_true, eq_iff,
}
use floe_runtime.Prelude.Map
use floe_runtime.Errors.{RuntimeFault}
use floe_runtime.JsonRpc.Peer.{
  Message, Action, resolve, reject, Peer, settle, answer, dispatch, request, abandon, rpc_error,
}

pending_back :
    (m : Map.Map ℕ) (key j : String) (t : ℕ)
    → Map.get m key ≡ none
    → Map.get (Map.delete (Map.set m key t) key) j ≡ Map.get m j
pending_back m key j t h =
    Map.get-delete key j (Map.set m key t) ∙ ground (arith, Map.get-set key j t m, eq_iff key j)

module _ {V : Type 0} where
  -- A response: a message with an id and no method.
  abbrev pub response : String → Option (Option String) → V → Message V
  response key error value = record { id = some key; method = none; error = error; value = value }

  -- What a response tells the promise.
  abbrev pub answer_of : ℕ → Option (Option String) → V → Action V
  answer_of ticket none value = resolve ticket value
  answer_of ticket (some text) value = reject ticket (rpc_error text)

  answer-deletes :
      (p : Peer V) (key : String) (m : Message V) (t : Option ℕ)
      → Map.get p.pending key ≡ t
      → Map.get (answer p key m t).pending key ≡ none
  answer-deletes p key m none h = h
  answer-deletes p key m (some t) h = settled m.error
    where
      settled :
          (e : Option (Option String))
          → Map.get (settle (record p { pending = Map.delete p.pending key }) t m e).pending key
            ≡ none
      settled none = Map.get-delete_self key p.pending
      settled (some text) = Map.get-delete_self key p.pending

  dispatch_gone :
      (p : Peer V) (key : String) (e : Option (Option String)) (v : V)
      → Map.get p.pending key ≡ none
      → dispatch p (response key e v) ≡ p
  unfolding dispatch
  dispatch_gone p key e v h = rw h

  abandon_gone :
      (p : Peer V) (key : String) (f : RuntimeFault)
      → Map.get p.pending key ≡ none
      → abandon p key f ≡ p
  unfolding abandon
  abandon_gone p key f h = rw h

  dispatch-deletes :
      (p : Peer V) (key : String) (e : Option (Option String)) (v : V)
      → Map.get (dispatch p (response key e v)).pending key ≡ none
  unfolding dispatch
  dispatch-deletes p key e v = answer-deletes p key (response key e v) (Map.get p.pending key) refl

  dispatch_known :
      (p : Peer V) (key : String) (t : ℕ) (e : Option (Option String)) (v : V)
      → Map.get p.pending key ≡ some t
      → ((dispatch p (response key e v)).actions ≡ answer_of t e v ∷ p.actions)
        × ((dispatch p (response key e v)).pending ≡ Map.delete p.pending key)
  unfolding dispatch
  dispatch_known p key t none v h = rw h (refl, refl)
  dispatch_known p key t (some text) v h = rw h (refl, refl)

  abandon_known :
      (p : Peer V) (key : String) (t : ℕ) (f : RuntimeFault)
      → Map.get p.pending key ≡ some t
      → ((abandon p key f).actions ≡ reject t f ∷ p.actions)
        × ((abandon p key f).pending ≡ Map.delete p.pending key)
  unfolding abandon
  abandon_known p key t f h = rw h (refl, refl)

  sent-pending :
      (text : ℕ → String) (p : Peer V) (method : String) (params : V) (ticket : ℕ)
      → p.writable ≡ true
      → (request text p method params ticket).pending
        ≡ Map.set p.pending (text (suc p.serial)) ticket
  unfolding request
  sent-pending text p method params ticket w =
      ap (λ (q : Peer V). q.pending) (if_true p.writable _ _ w)

  -- A promise is settled at most once: after a response to an id has been dispatched, a second
  -- response to it, its timeout and a failed write of its line all leave the peer as it is.
  pub dispatch_settles_once :
      (p : Peer V) (key : String) (e e' : Option (Option String)) (v v' : V) (f : RuntimeFault)
      → let p' = dispatch p (response key e v) in
        (dispatch p' (response key e' v') ≡ p') × (abandon p' key f ≡ p')
  dispatch_settles_once p key e e' v v' f =
      let gone = dispatch-deletes p key e v in
      (dispatch_gone _ key e' v' gone, abandon_gone _ key f gone)

  -- A request that can be written, under an id that is not pending yet, is answered by the response
  -- to its id: the response settles its promise and no other, and leaves the pending requests as they were before the request. So does
  -- a timeout, which rejects the promise.
  pub request-answered :
      (text : ℕ → String) (p : Peer V) (method : String) (params : V) (ticket : ℕ)
      (e : Option (Option String)) (v : V) (f : RuntimeFault)
      → p.writable ≡ true
      → Map.get p.pending (text (suc p.serial)) ≡ none
      → let p' = request text p method params ticket in
        let key = text (suc p.serial) in
        ((dispatch p' (response key e v)).actions ≡ answer_of ticket e v ∷ p'.actions)
        × ((j : String) → Map.get (dispatch p' (response key e v)).pending j ≡ Map.get p.pending j)
        × ((abandon p' key f).actions ≡ reject ticket f ∷ p'.actions)
        × ((j : String) → Map.get (abandon p' key f).pending j ≡ Map.get p.pending j)
  request-answered text p method params ticket e v f w fresh =
      let p' = request text p method params ticket in
      let key = text (suc p.serial) in
      let set = sent-pending text p method params ticket w in
      let known = ap (λ m. Map.get m key) set ∙ Map.get-set_self key ticket p.pending in
      let (a, d) = dispatch_known p' key ticket e v known in
      let (b, c) = abandon_known p' key ticket f known in
      (
        a,
        λ j.
            ap (λ m. Map.get m j) (d ∙ ap (λ m. Map.delete m key) set)
            ∙ pending_back p.pending key j ticket fresh,
        b,
        λ j.
            ap (λ m. Map.get m j) (c ∙ ap (λ m. Map.delete m key) set)
            ∙ pending_back p.pending key j ticket fresh,
      )
