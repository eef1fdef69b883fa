-- ===== src/Recorder/Ring.antt =====
-- The ring of the recorder against a queue: what is stored, what is read, and in which order.
use vd_trace.Base.{
  ℕ, zero, suc, ◌+◌, ◌-◌, ◌%◌, ◌≤◌, ◌<◌, ◌≡◌, ◌≢◌, ◌↔◌, refl, ap, sym, ◌∙◌, Bool, true, false, List,
  [], ◌∷◌, ◌++◌, arith, length, length-append, subst,
}
use mathlib.Core.List.{append_assoc}
use vd_trace.Recorder.{
  TextFileRecorder, ring_capacity, pending_between, pending_event_count, next_slot, put, Enqueued,
  enqueue, producer_wakes, WriteEnqueued, enqueue_write, pop_batch, finish_batch,
}
use vd_trace.Recorder.Steps.{System, opened, Step, Run, process_event}

queue_between :
    (i n w : ℕ)
    → i < ring_capacity
    → n < ring_capacity
    → w ≡ (i + n) % ring_capacity
    → pending_between i w ≡ n
unfolding pending_between
queue_between i n w h m e = ground arith

module _ {A : Type 0} where
  -- The events of `n` slots from `i` on.
  pub slots : (ℕ → A) → ℕ → ℕ → List A
  slots ring i zero = []
  slots ring i (suc n) = ring i ∷ slots ring (next_slot i) n

  length-slots : (ring : ℕ → A) (i n : ℕ) → length (slots ring i n) ≡ n
  unfolding slots
  length-slots ring i zero = refl
  length-slots ring i (suc n) = ap suc (length-slots ring (next_slot i) n)

  slots_front :
      (ring : ℕ → A) (i n : ℕ) → 1 ≤ n → slots ring i n ≡ ring i ∷ slots ring (next_slot i) (n - 1)
  unfolding slots
  slots_front ring i zero h = absurd (omega arith)
  slots_front ring i (suc n) h =
      let e : n ≡ suc n - 1 = omega arith in ap (λ k. ring i ∷ slots ring (next_slot i) k) e

  -- Writing behind the last of fewer than all slots adds an event at the end.
  slots-put :
      (ring : ℕ → A) (i n j : ℕ) (event : A)
      → i < ring_capacity
      → n < ring_capacity
      → j ≡ (i + n) % ring_capacity
      → slots (put ring j event) i (n + 1) ≡ slots ring i n ++ event ∷ []
  unfolding slots
  slots-put ring i zero j event h m e = let same : i ≡ j = omega arith in ground arith
  slots-put ring i (suc n) j event h m e =
      let other : i ≢ j = omega arith in
      let ih = slots-put ring (next_slot i) n j event (omega arith) (omega arith) (omega arith) in
      ground (arith, ih)

  pub enqueue-stored :
      (r r' : TextFileRecorder A) (event : A)
      → enqueue r event ≡ Enqueued.stored r'
      → (next_slot r.write_index ≢ r.read_index)
        × (r' ≡ record r {
          ring = put r.ring r.write_index event;
          write_index = next_slot r.write_index;
        })
  unfolding enqueue
  enqueue-stored r r' event e = ground arith

  abbrev SameRing : TextFileRecorder A → TextFileRecorder A → Type 0
  SameRing r r' =
      (r'.ring ≡ r.ring) × (r'.read_index ≡ r.read_index) × (r'.write_index ≡ r.write_index)

  enqueue_write-SameRing :
      (r r' : TextFileRecorder A) (text : List ℕ) (count : ℕ)
      → enqueue_write r text count ≡ WriteEnqueued.returned r'
      → SameRing r r'
  unfolding enqueue_write
  enqueue_write-SameRing r r' text count e = ground arith

  -- The worker has read `drained` slots that it has not given back, `unread` hold events that it
  -- has not read, and `ahead` of these are in its snapshot.
  record IsQueueOf (ring : ℕ → A) (read write local_read local_write : ℕ) (draining : Bool)
      (accepted processed : List A) : Type 0 where
    pub drained : ℕ
    pub unread : ℕ
    pub ahead : ℕ
    pub read_inside : read < ring_capacity
    pub at_read : local_read ≡ (read + drained) % ring_capacity
    pub at_write : write ≡ (local_read + unread) % ring_capacity
    pub at_snapshot : local_write ≡ (local_read + ahead) % ring_capacity
    pub snapshot : ahead ≤ unread
    pub room : drained + unread < ring_capacity
    pub given_back : draining ≡ false → drained ≡ 0
    pub fifo : accepted ≡ processed ++ slots ring local_read unread

  abbrev Holds : TextFileRecorder A → System A → Type 0
  Holds r s =
      IsQueueOf r.ring r.read_index r.write_index s.local_read s.local_write s.draining s.accepted
        s.processed

  abbrev IsQueue : System A → Type 0
  IsQueue s = Holds s.recorder s

  opened-IsQueue : (ring : ℕ → A) → IsQueue (opened ring)
  unfolding slots
  opened-IsQueue ring = record {
    drained = 0;
    unread = 0;
    ahead = 0;
    read_inside = omega arith;
    at_read = refl;
    at_write = refl;
    at_snapshot = refl;
    snapshot = omega arith;
    room = omega arith;
    given_back = λ _. refl;
    fifo = refl;
  }

  same_ring :
      (s : System A) (r : TextFileRecorder A) → SameRing s.recorder r → IsQueue s → Holds r s
  same_ring s r (ring, read, write) q = rw (ring, read, write) q

  produce-IsQueue :
      (s : System A) (r : TextFileRecorder A) (event : A)
      → enqueue s.recorder event ≡ Enqueued.stored r
      → IsQueue s
      → IsQueue (record s { recorder = r; accepted = s.accepted ++ event ∷ [] })
  produce-IsQueue s r event e q =
      let (free, stored) = enqueue-stored s.recorder r event e in
      subst
        (λ (x : TextFileRecorder A).
          IsQueue (record s { recorder = x; accepted = s.accepted ++ event ∷ [] }))
        (sym stored)
        (record {
          drained = q.drained;
          unread = q.unread + 1;
          ahead = q.ahead;
          read_inside = q.read_inside;
          at_read = q.at_read;
          at_write = omega (arith, q.at_write);
          at_snapshot = q.at_snapshot;
          snapshot = omega (arith, q.snapshot);
          room = omega (arith, q.room, q.at_read, q.at_write, free, q.read_inside);
          given_back = q.given_back;
          fifo =
              ap (λ l. l ++ event ∷ []) q.fifo
              ∙ append_assoc s.processed (slots s.recorder.ring s.local_read q.unread) (event ∷ [])
              ∙ ap (λ l. s.processed ++ l)
                  (sym (
                    slots-put s.recorder.ring s.local_read q.unread s.recorder.write_index event
                      (omega (arith, q.at_read)) (omega (arith, q.room)) q.at_write));
        })

  process-IsQueue :
      (s : System A)
      → s.draining ≡ true
      → s.local_read ≢ s.local_write
      → IsQueue s
      → IsQueue (process_event s)
  process-IsQueue s d m q = record {
    drained = q.drained + 1;
    unread = q.unread - 1;
    ahead = q.ahead - 1;
    read_inside = q.read_inside;
    at_read = omega (arith, q.at_read);
    at_write = omega (arith, q.at_write, m, q.at_snapshot, q.snapshot, q.at_read);
    at_snapshot = omega (arith, q.at_read, m, q.at_snapshot, q.snapshot);
    snapshot = omega (arith, q.snapshot);
    room = omega (arith, q.room, m, q.at_read, q.at_snapshot, q.snapshot);
    given_back = λ e. absurd (ground (arith, d));
    fifo =
        q.fifo
        ∙ ap (λ l. s.processed ++ l)
            (slots_front s.recorder.ring s.local_read q.unread
              (omega (arith, q.at_snapshot, q.snapshot, m, q.at_read)))
        ∙ sym (
            append_assoc s.processed (s.recorder.ring s.local_read ∷ [])
              (slots s.recorder.ring (next_slot s.local_read) (q.unread - 1)));
  }

  Step-IsQueue : (s t : System A) → Step s t → IsQueue s → IsQueue t
  unfolding pop_batch finish_batch
  Step-IsQueue s t (Step.produce event r e) q = produce-IsQueue s r event e q
  Step-IsQueue s t (Step.begin e) q =
      let z = q.given_back e in
      record {
        drained = 0;
        unread = q.unread;
        ahead = q.unread;
        read_inside = q.read_inside;
        at_read = omega (arith, q.read_inside);
        at_write = omega (arith, q.at_write, q.at_read, z);
        at_snapshot = omega (arith, q.at_write, q.at_read, z);
        snapshot = omega arith;
        room = omega (arith, q.room);
        given_back = λ _. refl;
        fifo =
            q.fifo
            ∙ ap (λ i. s.processed ++ slots s.recorder.ring i q.unread)
                (omega (arith, q.at_read, z, q.read_inside));
      }
  Step-IsQueue s t (Step.process d m) q = process-IsQueue s d m q
  Step-IsQueue s t (Step.flush text count r d l e) q =
      same_ring s r (enqueue_write-SameRing s.recorder r text count e) q
  Step-IsQueue s t (Step.commit d e) q = record {
    drained = 0;
    unread = q.unread;
    ahead = q.ahead;
    read_inside = omega (arith, q.at_read);
    at_read = omega (arith, q.at_read);
    at_write = q.at_write;
    at_snapshot = q.at_snapshot;
    snapshot = q.snapshot;
    room = omega (arith, q.room);
    given_back = λ _. refl;
    fifo = q.fifo;
  }
  Step-IsQueue s t (Step.failed b e) q =
      same_ring s (finish_batch s.recorder b false) (ground arith) q
  Step-IsQueue s t (Step.stop_worker) q = q
  Step-IsQueue s t (Step.stop_writer) q = q
  Step-IsQueue s t (Step.take_batch b rest w e) q = q
  Step-IsQueue s t (Step.activate b w) q = q
  Step-IsQueue s t (Step.written b w) q = q
  Step-IsQueue s t (Step.leave w e x) q = q

  Run-IsQueue : (ring : ℕ → A) {s : System A} → Run (opened ring) s → IsQueue s
  Run-IsQueue ring Run.begun = opened-IsQueue ring
  Run-IsQueue ring (Run.then_step {s} {t} r e) = Step-IsQueue s t e (Run-IsQueue ring r)

  -- However the threads interleave, the events that the worker has read and those that wait in
  -- the ring are together the events that were stored, each once and in order; the ring never
  -- holds more than its capacity less one, and `PendingEventCount` counts what waits whenever the
  -- worker is not in a drain.
  pub Run-fifo :
      (ring : ℕ → A) {s : System A}
      → Run (opened ring) s
      → (s.accepted
          ≡ s.processed
            ++ slots s.recorder.ring s.local_read
                (pending_between s.local_read s.recorder.write_index))
        × (pending_event_count s.recorder ≤ ring_capacity - 1)
        × (s.draining ≡ false
            → length s.accepted ≡ length s.processed + pending_event_count s.recorder)
  Run-fifo ring {s} run =
      let q = Run-IsQueue ring run in
      let n =
        queue_between s.local_read q.unread s.recorder.write_index (omega (arith, q.at_read))
          (omega (arith, q.room)) q.at_write in
      let p =
        queue_between s.recorder.read_index (q.drained + q.unread) s.recorder.write_index
          q.read_inside q.room (omega (arith, q.at_write, q.at_read)) in
      (
        rw n q.fifo,
        omega (arith, p, q.room),
        λ idle. omega (
          arith,
          ap length q.fifo,
          length-append s.processed (slots s.recorder.ring s.local_read q.unread),
          length-slots s.recorder.ring s.local_read q.unread,
          p,
          q.given_back idle,
        ),
      )

  -- A producer waits exactly while the ring is full: `Enqueue` waits where the condition that it
  -- waits for is false, and only there.
  pub enqueue-waits :
      (r : TextFileRecorder A) (event : A)
      → r.file_open ≡ true
      → r.stop_requested ≡ false
      → r.read_index < ring_capacity
      → r.write_index < ring_capacity
      → (enqueue r event ≡ Enqueued.waits) ↔ (producer_wakes r ≡ false)
  unfolding enqueue producer_wakes pending_between
  enqueue-waits r event o s h m = (λ e. ground arith, λ e. ground arith)
