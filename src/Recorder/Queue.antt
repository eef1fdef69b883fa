-- ===== src/Recorder/Queue.antt =====
-- The queue of batches between the worker and the writer: its counters, its bound, and where the
-- events that are given to it are.
use vd_trace.Base.{
  ℕ, ◌+◌, ◌%◌, ◌≤◌, ◌<◌, ◌≡◌, ◌⊎◌, inl, inr, refl, ap, sym, Bool, true, false, List, [], ◌∷◌, ◌++◌,
  arith, ◌==◌, Bool-cases, length, subst, u64_mod,
}
use vd_trace.Recorder.{
  PendingWriteBatch, TextFileRecorder, max_pending_write_bytes, WriteEnqueued, enqueue_write,
  push_batch, drop_write, pop_batch, finish_batch, signal_writer_stop,
}
use vd_trace.Recorder.Ring.{enqueue-stored}
use vd_trace.Recorder.Steps.{
  WriterState, looking, exited, taken, writing, System, opened, Step, Run,
}

pub queued_bytes : List PendingWriteBatch → ℕ
queued_bytes [] = 0
queued_bytes (b ∷ bs) = length b.text + queued_bytes bs

pub queued_events : List PendingWriteBatch → ℕ
queued_events [] = 0
queued_events (b ∷ bs) = b.event_count + queued_events bs

-- The events of the batch that the writer holds.
pub held_events : WriterState → ℕ
held_events looking = 0
held_events exited = 0
held_events (taken b) = b.event_count
held_events (writing b) = b.event_count

append-bytes :
    (xs ys : List PendingWriteBatch) → queued_bytes (xs ++ ys) ≡ queued_bytes xs + queued_bytes ys
unfolding queued_bytes
append-bytes [] ys = omega arith
append-bytes (x ∷ xs) ys = omega (arith, append-bytes xs ys)

append-events :
    (xs ys : List PendingWriteBatch)
    → queued_events (xs ++ ys) ≡ queued_events xs + queued_events ys
unfolding queued_events
append-events [] ys = omega arith
append-events (x ∷ xs) ys = omega (arith, append-events xs ys)

-- A queue within the bound, or one batch that is larger than the bound by itself.
abbrev pub WithinBound : List PendingWriteBatch → Type 0
WithinBound bs =
    (queued_bytes bs ≤ max_pending_write_bytes) ⊎ ((length bs ≡ 1) × (queued_bytes bs < u64_mod))

-- No batch is empty.
abbrev pub IsFilled : List PendingWriteBatch → Type 0
IsFilled [] = Unit
IsFilled (b ∷ bs) = (1 ≤ length b.text) × IsFilled bs

append-IsFilled :
    (bs : List PendingWriteBatch) (b : PendingWriteBatch)
    → IsFilled bs
    → 1 ≤ length b.text
    → IsFilled (bs ++ b ∷ [])
append-IsFilled [] b f h = (h, tt)
append-IsFilled (x ∷ xs) b f h = (f.0, append-IsFilled xs b f.1 h)

no_bytes : (bs : List PendingWriteBatch) → IsFilled bs → queued_bytes bs ≡ 0 → bs ≡ []
unfolding queued_bytes
no_bytes [] f e = refl
no_bytes (b ∷ bs) f e = absurd (omega (arith, f.0))

pub some_bytes : (bs : List PendingWriteBatch) → IsFilled bs → 1 ≤ length bs → 1 ≤ queued_bytes bs
unfolding queued_bytes
some_bytes [] f h = absurd (omega arith)
some_bytes (b ∷ bs) f h = omega (arith, f.0)

WithinBound-small : (bs : List PendingWriteBatch) → WithinBound bs → queued_bytes bs < u64_mod
WithinBound-small bs w = ground arith

WithinBound-rest :
    (b : PendingWriteBatch) (bs : List PendingWriteBatch) → WithinBound (b ∷ bs) → WithinBound bs
unfolding queued_bytes
WithinBound-rest b [] w = inl (omega arith)
WithinBound-rest b (x ∷ xs) (inl h) = inl (omega arith)
WithinBound-rest b (x ∷ xs) (inr h) = absurd (omega (arith, h.0))

WithinBound-append :
    (bs : List PendingWriteBatch) (b : PendingWriteBatch)
    → IsFilled bs
    → length b.text < u64_mod
    → (queued_bytes bs ≡ 0) ⊎ (queued_bytes bs + length b.text ≤ max_pending_write_bytes)
    → WithinBound (bs ++ b ∷ [])
unfolding queued_bytes
WithinBound-append bs b f small (inl e) =
    subst (λ l. WithinBound (l ++ b ∷ [])) (sym (no_bytes bs f e)) (inr (refl, omega arith))
WithinBound-append bs b f small (inr h) = inl (omega (arith, append-bytes bs (b ∷ [])))

module _ {A : Type 0} where
  pub record IsAccounted (r : TextFileRecorder A) (writer : WriterState) (offered : ℕ)
      : Type 0 where
    pub bytes : r.pending_write_bytes ≡ queued_bytes r.pending_write_batches
    pub events : r.pending_write_event_count ≡ queued_events r.pending_write_batches % u64_mod
    pub bound : WithinBound r.pending_write_batches
    pub filled : IsFilled r.pending_write_batches
    pub conserved :
        (queued_events r.pending_write_batches
            + held_events writer
            + r.written_event_count
            + r.total_dropped_write_event_count)
          % u64_mod
        ≡ offered % u64_mod

  pub enqueue_write-cases :
      (r r' : TextFileRecorder A) (text : List ℕ) (count : ℕ)
      → enqueue_write r text count ≡ WriteEnqueued.returned r'
      → (r' ≡ drop_write r count)
        ⊎ ((1 ≤ length text)
            × ((r.pending_write_bytes ≡ 0)
                ⊎ (r.pending_write_bytes + length text ≤ max_pending_write_bytes))
            × (r' ≡ push_batch r text count))
  unfolding enqueue_write
  enqueue_write-cases r r' text count e = ground arith

  drop-IsAccounted :
      (r : TextFileRecorder A) (writer : WriterState) (offered count : ℕ)
      → IsAccounted r writer offered
      → IsAccounted (drop_write r count) writer (offered + count)
  drop-IsAccounted r writer offered count a = elim (Bool-cases (count == 0)) [
    | inl none' ↦
        let e : offered ≡ offered + count = ground arith in
        rw none' (subst (IsAccounted r writer) e a)
    | inr some' ↦ rw some' (record {
      bytes = a.bytes;
      events = a.events;
      bound = a.bound;
      filled = a.filled;
      conserved = omega (arith, a.conserved);
    })
  ]

  push-IsAccounted :
      (r : TextFileRecorder A) (writer : WriterState) (offered count : ℕ) (text : List ℕ)
      → length text < u64_mod
      → 1 ≤ length text
      → (r.pending_write_bytes ≡ 0)
        ⊎ (r.pending_write_bytes + length text ≤ max_pending_write_bytes)
      → IsAccounted r writer offered
      → IsAccounted (push_batch r text count) writer (offered + count)
  unfolding queued_bytes queued_events
  push-IsAccounted r writer offered count text small full room a =
      let batches = r.pending_write_batches in
      let b : PendingWriteBatch = record { text = text; event_count = count } in
      let fits : (queued_bytes batches ≡ 0)
          ⊎ (queued_bytes batches + length text ≤ max_pending_write_bytes) =
        ground (arith, a.bytes) in
      let w = WithinBound-append batches b a.filled small fits in
      let n = append-bytes batches (b ∷ []) in
      let m = append-events batches (b ∷ []) in
      record {
        bytes = omega (arith, a.bytes, n, WithinBound-small (batches ++ b ∷ []) w);
        events = omega (arith, a.events, m);
        bound = w;
        filled = append-IsFilled batches b a.filled full;
        conserved = omega (arith, a.conserved, m);
      }

  flush-IsAccounted :
      (r r' : TextFileRecorder A) (writer : WriterState) (offered count : ℕ) (text : List ℕ)
      → length text < u64_mod
      → enqueue_write r text count ≡ WriteEnqueued.returned r'
      → IsAccounted r writer offered
      → IsAccounted r' writer (offered + count)
  flush-IsAccounted r r' writer offered count text small e a =
      elim (enqueue_write-cases r r' text count e) [
        | inl d ↦ rw d (drop-IsAccounted r writer offered count a)
        | inr (full, room, d) ↦
            rw d (push-IsAccounted r writer offered count text small full room a)
      ]

  pop-IsAccounted :
      (r : TextFileRecorder A) (offered : ℕ) (b : PendingWriteBatch) (rest : List PendingWriteBatch)
      → r.pending_write_batches ≡ b ∷ rest
      → IsAccounted r looking offered
      → IsAccounted (pop_batch r b rest) (taken b) offered
  unfolding pop_batch queued_bytes queued_events held_events
  pop-IsAccounted r offered b rest e a =
      let n = ap queued_bytes e in
      let m = ap queued_events e in
      let w = subst WithinBound e a.bound in
      record {
        bytes = omega (arith, a.bytes, n, WithinBound-small (b ∷ rest) w);
        events = omega (arith, a.events, m);
        bound = WithinBound-rest b rest w;
        filled = (subst IsFilled e a.filled).1;
        conserved = omega (arith, a.conserved, m);
      }

  finish-IsAccounted :
      (r : TextFileRecorder A) (offered : ℕ) (b : PendingWriteBatch) (ok : Bool)
      (next : WriterState)
      → held_events next ≡ 0
      → IsAccounted r (writing b) offered
      → IsAccounted (finish_batch r b ok) next offered
  unfolding finish_batch signal_writer_stop held_events
  finish-IsAccounted r offered b true next z a = record {
    bytes = a.bytes;
    events = a.events;
    bound = a.bound;
    filled = a.filled;
    conserved = omega (arith, a.conserved, z);
  }
  finish-IsAccounted r offered b false next z a =
      let others =
        queued_events r.pending_write_batches
        + held_events next
        + r.written_event_count
        + r.total_dropped_write_event_count in
      let d =
        drop-IsAccounted (record r { writer_active = false }) next others b.event_count
          (record {
            bytes = a.bytes;
            events = a.events;
            bound = a.bound;
            filled = a.filled;
            conserved = refl;
          }) in
      record {
        bytes = d.bytes;
        events = d.events;
        bound = d.bound;
        filled = d.filled;
        conserved = omega (arith, d.conserved, a.conserved, z);
      }

  pub Step-IsAccounted :
      (s t : System A)
      → Step s t
      → IsAccounted s.recorder s.writer s.offered
      → IsAccounted t.recorder t.writer t.offered
  unfolding held_events
  Step-IsAccounted s t (Step.produce event r e) a =
      let (free, stored) = enqueue-stored s.recorder r event e in
      rw stored (record {
        bytes = a.bytes;
        events = a.events;
        bound = a.bound;
        filled = a.filled;
        conserved = a.conserved;
      })
  Step-IsAccounted s t (Step.flush text count r d l e) a =
      flush-IsAccounted s.recorder r s.writer s.offered count text l e a
  Step-IsAccounted s t (Step.take_batch b rest w e) a =
      pop-IsAccounted s.recorder s.offered b rest e
        (subst (λ w. IsAccounted s.recorder w s.offered) w a)
  Step-IsAccounted s t (Step.activate b w) a =
      let c = subst (λ w. IsAccounted s.recorder w s.offered) w a in
      record {
        bytes = c.bytes;
        events = c.events;
        bound = c.bound;
        filled = c.filled;
        conserved = c.conserved;
      }
  Step-IsAccounted s t (Step.written b w) a =
      finish-IsAccounted s.recorder s.offered b true looking refl
        (subst (λ w. IsAccounted s.recorder w s.offered) w a)
  Step-IsAccounted s t (Step.failed b w) a =
      finish-IsAccounted s.recorder s.offered b false exited refl
        (subst (λ w. IsAccounted s.recorder w s.offered) w a)
  Step-IsAccounted s t (Step.leave w e x) a =
      let c = subst (λ w. IsAccounted s.recorder w s.offered) w a in
      record {
        bytes = c.bytes;
        events = c.events;
        bound = c.bound;
        filled = c.filled;
        conserved = c.conserved;
      }
  Step-IsAccounted s t _ a = record {
    bytes = a.bytes;
    events = a.events;
    bound = a.bound;
    filled = a.filled;
    conserved = a.conserved;
  }

  -- However the threads interleave: the counters of the queue are the bytes and, modulo 2 ^ 64, the
  -- events of the batches in it; the queue is within its bound or is one larger batch; and
  -- every event that was given to it is queued, held by the writer, written or counted as dropped.
  pub Run-IsAccounted :
      (ring : ℕ → A) {s : System A}
      → Run (opened ring) s
      → IsAccounted s.recorder s.writer s.offered
  unfolding queued_bytes queued_events held_events
  Run-IsAccounted ring Run.begun = record {
    bytes = refl;
    events = refl;
    bound = inl (omega arith);
    filled = tt;
    conserved = refl;
  }
  Run-IsAccounted ring (Run.then_step {s} {t} run e) =
      Step-IsAccounted s t e (Run-IsAccounted ring run)
