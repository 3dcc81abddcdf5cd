-- ===== src/Projector/Delivery.antt =====
-- Replay in pages, live delivery one by one, and redelivery: the loop of `apply` in
-- internal/controlplane/kvproj.go.
use inferbus.Base.{
  string_eq, Bool, List, Option-cases, String, [], arith, inl, inr, none, refl, some, subst, sym,
  true, ℕ, ◌++◌, ◌<◌, ◌∙◌, ◌∷◌, ◌≡◌, ◌≤◌,
}
use inferbus.Projector.{
  Applied, Envelope, Error, Fault, Projector, advance, after_one, apply, deliver, deliver_all,
}

module _ {S : Type 0} (is_own : String → Bool)
    (apply_one : S → List Fault → Envelope → Applied S) where
  -- Batch boundaries do not matter: one batch is the same as two, whether or not an error occurs.
  pub apply-append :
      (p : Projector S) (xs ys : List Envelope)
      → apply is_own apply_one p (xs ++ ys)
        ≡ apply is_own apply_one (apply is_own apply_one p xs) ys
  unfolding apply deliver_all
  apply-append p [] ys = ground arith
  apply-append p (x ∷ xs) ys = ground (arith, apply-append (deliver is_own apply_one p x) xs ys)

  -- Once an error is latched nothing that is delivered changes the projector.
  apply_latched :
      (p : Projector S) (es : List Envelope) {x : Error}
      → p.failed ≡ some x
      → apply is_own apply_one p es ≡ p
  unfolding apply
  apply_latched p es h = ground arith

  -- `saved` trails `pos`, and has caught up unless an error is latched.
  pub record MarkerFollows (p : Projector S) : Type 0 where
    pub saved_le_pos : p.saved ≤ p.pos
    pub caught_up : p.failed ≡ none → p.saved ≡ p.pos

  advance-MarkerFollows :
      (p : Projector S) (e : Envelope)
      → p.failed ≡ none
      → p.pos < e.global_position
      → MarkerFollows p
      → MarkerFollows (advance is_own apply_one p e)
  unfolding advance
  advance-MarkerFollows p e h later v = ground arith

  after_one-MarkerFollows :
      (p : Projector S) (e : Envelope) (a : Applied S)
      → p.failed ≡ none
      → p.pos < e.global_position
      → MarkerFollows p
      → MarkerFollows (after_one is_own apply_one p e a)
  unfolding after_one
  after_one-MarkerFollows p e (store, faults, none) h later v =
      advance-MarkerFollows (record p { store = store; faults = faults }) e h later
        (record { saved_le_pos = v.saved_le_pos; caught_up = v.caught_up })
  after_one-MarkerFollows p e (store, faults, some x) h later v = record {
    saved_le_pos = v.saved_le_pos;
    caught_up = λ n. absurd (ground arith);
  }

  deliver-MarkerFollows :
      (p : Projector S) (e : Envelope)
      → p.failed ≡ none
      → MarkerFollows p
      → MarkerFollows (deliver is_own apply_one p e)
  unfolding deliver
  deliver-MarkerFollows p e h v = ground (
    arith,
    advance-MarkerFollows p e h,
    after_one-MarkerFollows p e (apply_one p.store p.faults e) h,
  )

  -- Whatever is delivered and whatever fails, the saved marker never passes the position reached,
  -- and it has caught up with it unless an error is latched.
  pub apply-MarkerFollows :
      (p : Projector S) (es : List Envelope)
      → MarkerFollows p
      → MarkerFollows (apply is_own apply_one p es)
  unfolding apply deliver_all
  apply-MarkerFollows p [] v = ground arith
  apply-MarkerFollows p (e ∷ es) v = elim (Option-cases p.failed) [
    | inl h ↦
        let q = deliver is_own apply_one p e in
        let next = deliver-MarkerFollows p e h v in
        let rest = apply-MarkerFollows q es next in ground (arith, next, rest)
    | inr (x, h) ↦ subst MarkerFollows (sym (apply_latched p (e ∷ es) h)) v
  ]

  apply_stops :
      (q : Projector S) (e : Envelope) (ys : List Envelope) {x : Error}
      → q.failed ≡ none
      → q.pos < e.global_position
      → is_own e.stream_type ≡ true
      → (apply_one q.store q.faults e).2 ≡ some x
      → let r = apply is_own apply_one q (e ∷ ys) in
        (r.pos ≡ q.pos) × (r.saved ≡ q.saved) × (r.failed ≡ some x)
  unfolding apply deliver_all deliver
  apply_stops q e ys fresh later own bad = ground arith

  -- An envelope whose `applyOne` fails stops the projector for good: whatever follows in the same
  -- batch or in any later one, the position and the marker stay where they were before it.
  pub apply_fail_stop :
      (p : Projector S) (xs ys zs : List Envelope) (e : Envelope) {x : Error}
      → (apply is_own apply_one p xs).failed ≡ none
      → (apply is_own apply_one p xs).pos < e.global_position
      → is_own e.stream_type ≡ true
      → (apply_one (apply is_own apply_one p xs).store (apply is_own apply_one p xs).faults e).2
        ≡ some x
      → let q = apply is_own apply_one p xs in
        let r = apply is_own apply_one (apply is_own apply_one p (xs ++ e ∷ ys)) zs in
        (r.pos ≡ q.pos) × (r.saved ≡ q.saved) × (r.failed ≡ some x)
  apply_fail_stop p xs ys zs e fresh later own bad =
      let stopped = apply_stops (apply is_own apply_one p xs) e ys fresh later own bad in
      rw
        (
          apply-append p xs (e ∷ ys),
          apply_latched (apply is_own apply_one (apply is_own apply_one p xs) (e ∷ ys)) zs
              stopped.2,
        )
        stopped

-- `delivered` brings the envelopes of `log` in order, with any number of repetitions of what stands
-- at or below the position reached before.
pub data Redelivers : ℕ → List Envelope → List Envelope → Type 0 where
  done : (n : ℕ) → Redelivers n [] []
  fresh :
      {n : ℕ} {e : Envelope} {delivered log : List Envelope}
      → n < e.global_position
      → Redelivers e.global_position delivered log
      → Redelivers n (e ∷ delivered) (e ∷ log)
  again :
      {n : ℕ} {e : Envelope} {delivered log : List Envelope}
      → e.global_position ≤ n
      → Redelivers n delivered log
      → Redelivers n (e ∷ delivered) log

module _ {S : Type 0} (is_own : String → Bool)
    (apply_one : S → List Fault → Envelope → Applied S) where
  pub apply-cons :
      (p : Projector S) (e : Envelope) (es : List Envelope)
      → p.failed ≡ none
      → apply is_own apply_one p (e ∷ es) ≡ apply is_own apply_one (deliver is_own apply_one p e) es
  unfolding apply deliver_all
  apply-cons p e es h = ground arith

  after_one_pos :
      (p : Projector S) (e : Envelope) (a : Applied S)
      → (after_one is_own apply_one p e a).failed ≡ none
      → (after_one is_own apply_one p e a).pos ≡ e.global_position
  unfolding after_one advance
  after_one_pos p e (store, faults, none) h = ground arith
  after_one_pos p e (store, faults, some x) h = absurd (ground arith)

  deliver_pos :
      (p : Projector S) (e : Envelope)
      → p.pos < e.global_position
      → (deliver is_own apply_one p e).failed ≡ none
      → (deliver is_own apply_one p e).pos ≡ e.global_position
  unfolding deliver
  deliver_pos p e later h =
      ground (arith, after_one_pos p e (apply_one p.store p.faults e), advance is_own apply_one)

  deliver_again :
      (p : Projector S) (e : Envelope)
      → e.global_position ≤ p.pos
      → deliver is_own apply_one p e ≡ p
  unfolding deliver
  deliver_again p e h = ground arith

  redelivered :
      (n : ℕ) (p : Projector S) (delivered log : List Envelope)
      → (p.failed ≡ none → p.pos ≡ n)
      → Redelivers n delivered log
      → apply is_own apply_one p delivered ≡ apply is_own apply_one p log
  redelivered n p delivered log at (done _) = refl
  redelivered n p _ _ at (fresh {e = e} {delivered = d} {log = l} later r) =
      elim (Option-cases p.failed) [
        | inl h ↦
            rw (apply-cons p e d h, apply-cons p e l h)
              (redelivered e.global_position (deliver is_own apply_one p e) d l
                (deliver_pos p e (rw (at h) later)) r)
        | inr (x, h) ↦
            apply_latched is_own apply_one p (e ∷ d) h
            ∙ sym (apply_latched is_own apply_one p (e ∷ l) h)
      ]
  redelivered n p _ log at (again {e = e} {delivered = d} old r) = elim (Option-cases p.failed) [
    | inl h ↦
        rw (apply-cons p e d h, deliver_again p e (rw (at h) old)) (redelivered n p d log at r)
    | inr (x, h) ↦
        apply_latched is_own apply_one p (e ∷ d) h ∙ sym (apply_latched is_own apply_one p log h)
  ]

  -- Redelivery is harmless: delivering the log in order, with any repetitions of what was delivered
  -- before, leaves the projector just as delivering the log once does.
  pub apply-Redelivers :
      (p : Projector S) (delivered log : List Envelope)
      → Redelivers p.pos delivered log
      → apply is_own apply_one p delivered ≡ apply is_own apply_one p log
  apply-Redelivers p delivered log r = redelivered p.pos p delivered log (λ h. refl) r
