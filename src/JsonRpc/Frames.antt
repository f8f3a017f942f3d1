-- ===== src/JsonRpc/Frames.antt =====
-- Framing: how the text of the child process is cut into messages does not depend on how the stream
-- is cut into chunks.
use floe_runtime.Prelude.{
  ℕ, ◌+◌, ◌≤◌, ◌≡◌, refl, ap, sym, ◌∙◌, inl, inr, true, false, List, [], ◌∷◌, ◌++◌, arith, nat_eq,
  ltb, if_true, if_false, All-append, ltb-false, Bool-cases, length, length-append, All, Bool, not,
  ◌&&◌, if◌then◌else◌, subst,
}
use mathlib.Core.List.{append_assoc, append-nil}
use floe_runtime.JsonRpc.Peer.{
  Peer, Reader, max_buffer, dispatch, handle_line, split_lines, on_data, throws, json_null,
  uncaught, all_blank,
}

module _ {V : Type 0} (r : Reader V) where
  -- Does `#dispatch` throw at none of the whole lines of the text, the first of which starts with `line`?
  abbrev pub never_null : (line : List ℕ) → List ℕ → Bool
  never_null line [] = true
  never_null line (c ∷ cs) =
      let next = not (throws r line) && never_null [] cs in
      let more = never_null (line ++ c ∷ []) cs in if nat_eq c b'\n' then next else more

  never_null-newline :
      (line : List ℕ) (c : ℕ) (cs : List ℕ)
      → nat_eq c b'\n' ≡ true
      → never_null line (c ∷ cs) ≡ true
      → (throws r line ≡ false) × (never_null [] cs ≡ true)
  never_null-newline line c cs h t = ground arith

  never_null-other :
      (line : List ℕ) (c : ℕ) (cs : List ℕ)
      → nat_eq c b'\n' ≡ false
      → never_null line (c ∷ cs) ≡ true
      → never_null (line ++ c ∷ []) cs ≡ true
  never_null-other line c cs h t = ground arith

  split_newline :
      (p : Peer V) (line : List ℕ) (c : ℕ) (cs : List ℕ)
      → nat_eq c b'\n' ≡ true
      → throws r line ≡ false
      → split_lines r p line (c ∷ cs) ≡ split_lines r (handle_line r p line) [] cs
  unfolding split_lines
  split_newline p line c cs h t =
      if_true (nat_eq c b'\n') _ (split_lines r p (line ++ c ∷ []) cs) h
      ∙ if_false (throws r line) (record (handle_line r p line) { buffer = cs }) _ t

  split_other :
      (p : Peer V) (line : List ℕ) (c : ℕ) (cs : List ℕ)
      → nat_eq c b'\n' ≡ false
      → split_lines r p line (c ∷ cs) ≡ split_lines r p (line ++ c ∷ []) cs
  unfolding split_lines
  split_other p line c cs h = if_false (nat_eq c b'\n') _ _ h

  -- Handling a line does not read or write the buffer.
  abbrev with_buffer : List ℕ → Peer V → Peer V
  with_buffer b p = record p { buffer = b }

  handle_line-buffer :
      (p : Peer V) (b line : List ℕ)
      → handle_line r (with_buffer b p) line ≡ with_buffer b (handle_line r p line)
  unfolding handle_line dispatch
  handle_line-buffer p b line = ground arith

  split_lines-buffer :
      (p : Peer V) (b line xs : List ℕ)
      → split_lines r (with_buffer b p) line xs ≡ split_lines r p line xs
  unfolding split_lines
  split_lines-buffer p b line [] = refl
  split_lines-buffer p b line (c ∷ xs) =
      rw
        (
          handle_line-buffer p b line,
          split_lines-buffer (handle_line r p line) b [] xs,
          split_lines-buffer p b (line ++ c ∷ []) xs,
        )
        refl

  -- A text that is cut in two: the rest of the first part goes before the second.
  split_lines-append :
      (p : Peer V) (line xs ys : List ℕ)
      → never_null line xs ≡ true
      → split_lines r p line (xs ++ ys)
        ≡ split_lines r (split_lines r p line xs) (split_lines r p line xs).buffer ys
  split_lines-append p line [] ys safe =
      unfold split_lines in sym (split_lines-buffer p line line ys)
  split_lines-append p line (c ∷ xs) ys safe = elim (Bool-cases (nat_eq c b'\n')) [
    | inl newline ↦
        (let (here, later) = never_null-newline line c xs newline safe in
          rw
            (split_newline p line c (xs ++ ys) newline here, split_newline p line c xs newline here)
            (split_lines-append (handle_line r p line) [] xs ys later))
    | inr none' ↦
        rw (split_other p line c (xs ++ ys) none', split_other p line c xs none')
          (split_lines-append p (line ++ c ∷ []) xs ys (never_null-other line c xs none' safe))
  ]

  abbrev pub NoNewline : List ℕ → Type 0
  NoNewline cs = All (λ c. nat_eq c b'\n' ≡ false) cs

  -- Scanning text that holds no newline only lengthens the line.
  split_lines_same_line :
      (p : Peer V) (line xs ys : List ℕ)
      → NoNewline xs
      → split_lines r p line (xs ++ ys) ≡ split_lines r p (line ++ xs) ys
  split_lines_same_line p line [] ys h = rw (append-nil line)
  split_lines_same_line p line (c ∷ xs) ys (h, hs) =
      split_other p line c (xs ++ ys) h
      ∙ split_lines_same_line p (line ++ c ∷ []) xs ys hs
      ∙ ap (λ l. split_lines r p l ys) (append_assoc line (c ∷ []) xs)

  -- The rest is short and holds no newline.
  abbrev Rest : ℕ → Peer V → Type 0
  Rest n p = NoNewline p.buffer × (length p.buffer ≤ n)

  split_lines-Rest :
      (p : Peer V) (line xs : List ℕ)
      → never_null line xs ≡ true
      → NoNewline line
      → Rest (length line + length xs) (split_lines r p line xs)
  split_lines-Rest p line [] safe h = unfold split_lines in (h, omega arith)
  split_lines-Rest p line (c ∷ xs) safe h = elim (Bool-cases (nat_eq c b'\n')) [
    | inl newline ↦
        (let (here, later) = never_null-newline line c xs newline safe in
          rw (split_newline p line c xs newline here) (
            let (n, l) = split_lines-Rest (handle_line r p line) [] xs later tt in
            (n, omega arith)))
    | inr none' ↦ rw (split_other p line c xs none') (
        let (n, l) =
          split_lines-Rest p (line ++ c ∷ []) xs (never_null-other line c xs none' safe)
            (All-append _ line (c ∷ []) h (none', tt)) in
        (n, omega (arith, length-append line (c ∷ []))))
  ]

  on_data_fits :
      (p : Peer V) (chunk : List ℕ)
      → length (p.buffer ++ chunk) ≤ max_buffer
      → on_data r p chunk ≡ split_lines r p [] (p.buffer ++ chunk)
  unfolding on_data
  on_data_fits p chunk h =
      if_false (ltb max_buffer (length (p.buffer ++ chunk))) _ _ (ltb-false max_buffer _ h)

  -- Framing does not depend on the chunks in which the text arrives: if the buffered text and both
  -- chunks together are within the limit, and no whole line of the buffered text with the first chunk is
  -- the JSON value null, two chunks one after the other leave the peer exactly as their concatenation
  -- does, with the same messages dispatched in the same order.
  pub on_data-append :
      (p : Peer V) (xs ys : List ℕ)
      → never_null [] (p.buffer ++ xs) ≡ true
      → length p.buffer + length xs + length ys ≤ max_buffer
      → on_data r (on_data r p xs) ys ≡ on_data r p (xs ++ ys)
  on_data-append p xs ys safe fits =
      let (clean, short) = split_lines-Rest p [] (p.buffer ++ xs) safe tt in
      let first = split_lines r p [] (p.buffer ++ xs) in
      ap (λ u. on_data r u ys) (on_data_fits p xs (omega (arith, length-append p.buffer xs)))
      ∙ on_data_fits first ys
          (omega (arith, length-append p.buffer xs, length-append first.buffer ys))
      ∙ split_lines_same_line first [] first.buffer ys clean
      ∙ sym (split_lines-append p [] (p.buffer ++ xs) ys safe)
      ∙ ap (split_lines r p []) (append_assoc p.buffer xs ys)
      ∙ sym (
          on_data_fits p (xs ++ ys)
            (omega (arith, length-append p.buffer (xs ++ ys), length-append xs ys)))

  -- A peer at which reading has stopped: nothing was done but the exception, and the text stays unread.
  pub record Halted (p : Peer V) (rest : List ℕ) (q : Peer V) : Type 0 where
    pub unread : q.buffer ≡ rest
    pub only_thrown : q.actions ≡ uncaught ∷ p.actions
    pub same_pending : q.pending ≡ p.pending
    pub same_awaiting : q.awaiting_response ≡ p.awaiting_response

  split_null :
      (p : Peer V) (line rest : List ℕ)
      → all_blank r line ≡ false
      → r.parse line ≡ json_null
      → Halted p rest (split_lines r p line (b'\n' ∷ rest))
  unfolding split_lines handle_line throws
  split_null p line rest b n = record {
    unread = rw (b, n) refl;
    only_thrown = rw (b, n) refl;
    same_pending = rw (b, n) refl;
    same_awaiting = rw (b, n) refl;
  }

  -- If the first whole line of the buffered text and the chunk is not blank and is the JSON value null, then
  -- whatever whole messages follow that line, none of them is dispatched: they stay in the buffer, and
  -- only the exception is raised.
  pub null_line_stops :
      (p : Peer V) (chunk line rest : List ℕ)
      → p.buffer ++ chunk ≡ line ++ b'\n' ∷ rest
      → length (p.buffer ++ chunk) ≤ max_buffer
      → NoNewline line
      → all_blank r line ≡ false
      → r.parse line ≡ json_null
      → Halted p rest (on_data r p chunk)
  null_line_stops p chunk line rest e fits clean b n =
      subst (Halted p rest)
        (sym (
          on_data_fits p chunk fits
          ∙ ap (split_lines r p []) e
          ∙ split_lines_same_line p [] line (b'\n' ∷ rest) clean))
        (split_null p line rest b n)
