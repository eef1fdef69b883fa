-- ===== src/Recorder/Stuck.antt =====
-- The queue of batches once the writer has left its loop.
use vd_trace.Base.{
  ℕ, ◌≤◌, ◌≡◌, refl, ◌∙◌, true, List, [], ◌∷◌, inl, inr, arith, ◌==◌, length, length-append,
  Bool-cases,
}
use vd_trace.Recorder.{TextFileRecorder, is_writing, drop_write, enqueue_write, WriteEnqueued}
use vd_trace.Recorder.Ring.{enqueue-stored}
use vd_trace.Recorder.Queue.{
  some_bytes, IsAccounted, Step-IsAccounted, enqueue_write-cases, Run-IsAccounted,
}
use vd_trace.Recorder.Steps.{exited, System, opened, Step, Run}

module _ {A : Type 0} where
  -- What a step can do to a queue whose writer has left.
  abbrev Keeps : System A → System A → Type 0
  Keeps s t =
      (t.writer ≡ exited)
      × (length s.recorder.pending_write_batches ≤ length t.recorder.pending_write_batches)
      × (t.recorder.written_event_count ≡ s.recorder.written_event_count)

  drop-Keeps :
      (r : TextFileRecorder A) (count : ℕ)
      → (length r.pending_write_batches ≤ length (drop_write r count).pending_write_batches)
        × ((drop_write r count).written_event_count ≡ r.written_event_count)
  drop-Keeps r count = elim (Bool-cases (count == 0)) [
    | inl e ↦ rw e (omega arith, refl)
    | inr e ↦ rw e (omega arith, refl)
  ]

  flush-Keeps :
      (r r' : TextFileRecorder A) (text : List ℕ) (count : ℕ)
      → enqueue_write r text count ≡ WriteEnqueued.returned r'
      → (length r.pending_write_batches ≤ length r'.pending_write_batches)
        × (r'.written_event_count ≡ r.written_event_count)
  flush-Keeps r r' text count e = elim (enqueue_write-cases r r' text count e) [
    | inl d ↦ rw d (drop-Keeps r count)
    | inr (full, room, d) ↦ rw d (
      omega (
        arith,
        length-append r.pending_write_batches (record { text = text; event_count = count } ∷ []),
      ),
      refl,
    )
  ]

  Step-Keeps : (s t : System A) → Step s t → s.writer ≡ exited → Keeps s t
  Step-Keeps s t (Step.produce event r e) w =
      let (free, stored) = enqueue-stored s.recorder r event e in rw stored (w, omega arith, refl)
  Step-Keeps s t (Step.flush text count r d l e) w =
      let (l, n) = flush-Keeps s.recorder r text count e in (w, l, n)
  Step-Keeps s t (Step.take_batch b rest looks e) w = absurd (ground (arith, looks))
  Step-Keeps s t (Step.activate b takes) w = absurd (ground (arith, takes))
  Step-Keeps s t (Step.written b writes) w = absurd (ground (arith, writes))
  Step-Keeps s t (Step.failed b writes) w = absurd (ground (arith, writes))
  Step-Keeps s t (Step.leave looks e x) w = absurd (ground (arith, looks))
  Step-Keeps s t _ w = (w, omega arith, refl)

  Run-Keeps : (s : System A) {t : System A} → s.writer ≡ exited → Run s t → Keeps s t
  Run-Keeps s w Run.begun = (w, omega arith, refl)
  Run-Keeps s w (Run.then_step {s = u} {t = t} run e) =
      let (w', l, n) = Run-Keeps s w run in
      let (w'', l', n') = Step-Keeps u t e w' in (w'', omega (arith, l, l'), n' ∙ n)

  Run-IsAccounted_from :
      (s : System A) {t : System A}
      → IsAccounted s.recorder s.writer s.offered
      → Run s t
      → IsAccounted t.recorder t.writer t.offered
  Run-IsAccounted_from s a Run.begun = a
  Run-IsAccounted_from s a (Run.then_step {s = u} {t = t} run e) =
      Step-IsAccounted u t e (Run-IsAccounted_from s a run)

  bytes-is_writing : (r : TextFileRecorder A) → 1 ≤ r.pending_write_bytes → is_writing r ≡ true
  unfolding is_writing
  bytes-is_writing r h = ground arith

  -- Once the writer has left while batches are queued, as it does when a write fails, none of
  -- these events is written any more and `IsWriting` stays true, whatever the threads do.
  pub exited-is_writing :
      (ring : ℕ → A) {s t : System A}
      → Run (opened ring) s
      → s.writer ≡ exited
      → 1 ≤ length s.recorder.pending_write_batches
      → Run s t
      → (is_writing t.recorder ≡ true)
        × (t.recorder.written_event_count ≡ s.recorder.written_event_count)
        × (1 ≤ length t.recorder.pending_write_batches)
  exited-is_writing ring {s} {t} before w left run =
      let (w', l, n) = Run-Keeps s w run in
      let a = Run-IsAccounted_from s (Run-IsAccounted ring before) run in
      let many : 1 ≤ length t.recorder.pending_write_batches = omega (arith, l, left) in
      (
        bytes-is_writing t.recorder
            (omega (arith, a.bytes, some_bytes t.recorder.pending_write_batches a.filled many)),
        n,
        many,
      )
