-- ===== src/Worker/Outcome.antt =====
-- Every way in which internal/worker/worker.go can end a request.
use inferbus.Base.{
  Bool-cases, List, String, [], ap, inl, inr, length, map, pos, refl, ℕ, ℤ, ◌++◌, ◌+◌, ◌∷◌, ◌≡◌,
}
use inferbus.Base.{string_eq}
use inferbus.Wire.Types.{Message, Usage, UsageEvent}
use inferbus.Worker.{
  Cause, Effect, EngineError, EngineResult, ModelConfig, ReqMeta, Served, ack, answered, by_client,
  by_deadline, by_shutdown, call_effects, chunk_frame, chunk_frames, error_frame, expired, failed,
  failed_effects, handle, is_streaming, meter, panic_effects, panicked, publish_frame,
  publish_usage, still_running, stream_end, ttft_of,
}

-- The effects are some frames, then one ack, then one usage event of this request.
abbrev pub IsSettled : ReqMeta → List Effect → Type 0
IsSettled m es =
    (frames : List Message) × (ev : UsageEvent) × (es
      ≡ map publish_frame frames ++ (ack ∷ publish_usage ev ∷ []))
    × (ev.req_id ≡ m.req_id)
    × (ev.org ≡ m.org)
    × (ev.project ≡ m.project)
    × (ev.key_id ≡ m.key_id)

module _ (worker_id : String) (m : ReqMeta) (mc : ModelConfig) (v : Served) where
  failed-IsSettled :
      (seq : ℕ) (ttft : ℤ) (e : EngineError) (u : Usage) (cause : Cause)
      → IsSettled m (failed_effects worker_id m mc v seq ttft e u cause)
  unfolding failed_effects error_frame meter
  failed-IsSettled seq ttft e u still_running = (_ ∷ [], _, refl, refl, refl, refl, refl)
  failed-IsSettled seq ttft e u by_client = ([], _, refl, refl, refl, refl, refl)
  failed-IsSettled seq ttft e u by_deadline = ([], _, refl, refl, refl, refl, refl)
  failed-IsSettled seq ttft e u by_shutdown = ([], _, refl, refl, refl, refl, refl)

  call-IsSettled : (r : EngineResult) → IsSettled m (call_effects worker_id m mc v r)
  unfolding call_effects panic_effects error_frame meter
  call-IsSettled (answered payload u) = (_ ∷ [], _, refl, refl, refl, refl, refl)
  call-IsSettled (failed e u cause) = failed-IsSettled 0 (pos 0) e u cause
  call-IsSettled (panicked r) = (_ ∷ [], _, refl, refl, refl, refl, refl)

  end-IsSettled : (seq : ℕ) (r : EngineResult) → IsSettled m (stream_end worker_id m mc v seq r)
  unfolding stream_end panic_effects error_frame meter
  end-IsSettled seq (answered payload u) = (_ ∷ [], _, refl, refl, refl, refl, refl)
  end-IsSettled seq (failed e u cause) =
      failed-IsSettled seq (ttft_of worker_id m mc v v.chunks) e u cause
  end-IsSettled seq (panicked r) = (_ ∷ [], _, refl, refl, refl, refl, refl)

  chunks-IsSettled :
      (seq : ℕ) (cs : List String) (es : List Effect)
      → IsSettled m es
      → IsSettled m (chunk_frames worker_id m mc v seq cs ++ es)
  unfolding chunk_frames
  chunks-IsSettled seq [] es s = s
  chunks-IsSettled seq (c ∷ cs) es s =
      let (frames, ev, e, q0, q1, q2, q3) = chunks-IsSettled (seq + 1) cs es s in
      (
        chunk_frame seq c ∷ frames,
        ev,
        ap (λ t. publish_frame (chunk_frame seq c) ∷ t) e,
        q0,
        q1,
        q2,
        q3,
      )

  -- Whatever the engine does, however the request's context ends, and if the engine panics: the
  -- worker publishes its frames, acknowledges the message once, and publishes one usage event, in
  -- this order. The event names the request, its org, its project and its key.
  pub handle-IsSettled : IsSettled m (handle worker_id m mc v)
  unfolding handle meter
  handle-IsSettled = elim (Bool-cases (expired m.deadline v.now)) [
    | inl late ↦ rw late ([], _, refl, refl, refl, refl, refl)
    | inr live ↦ elim (Bool-cases (is_streaming worker_id m mc v)) [
      | inl streams ↦
          rw (live, streams)
            (chunks-IsSettled 0 v.chunks _ (end-IsSettled (length v.chunks) v.result))
      | inr whole ↦ rw (live, whole) (call-IsSettled v.result)
    ]
  ]
