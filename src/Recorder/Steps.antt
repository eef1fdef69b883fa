-- ===== src/Recorder/Steps.antt =====
-- The threads of the recorder as steps on what they share: producers that `Enqueue`, the worker of
-- `WorkerLoop` and the writer of `WriterLoop`. A step takes together what a thread does between two
-- points at which the others are let in: the test of `stop_requested` with the locked section in
-- `Enqueue`, the stores of `read_index` and `worker_active` behind a drain, the stores behind a
-- batch (with those of `SignalWriterStop` after a failure), and the writer's look at the queue with
-- its last load of `writer_stop_requested`, which is never taken back. The writer's catch
-- branches are left out.
-- `accepted`, `processed` and `offered` record what happened: the events stored in the ring, the
-- events that the worker has read, and the events of the batches given to `EnqueueWrite`.
use vd_trace.Base.{
  ℕ, ◌+◌, ◌<◌, ◌≡◌, ◌≢◌, Bool, true, false, not, List, [], ◌∷◌, ◌++◌, ◌==◌, u64_mod, length,
}
use vd_trace.Recorder.{
  PendingWriteBatch, TextFileRecorder, next_slot, Enqueued, enqueue, WriteEnqueued, enqueue_write,
  pop_batch, finish_batch,
}

-- Where the writer stands in its loop.
pub data WriterState : Type 0 where
  looking exited : WriterState
  taken writing : PendingWriteBatch → WriterState

pub record System (A : Type 0) : Type 0 where
  pub recorder : TextFileRecorder A
  pub local_read : ℕ
  pub local_write : ℕ
  pub draining : Bool
  pub writer : WriterState
  pub accepted : List A
  pub processed : List A
  pub offered : ℕ

-- After the constructor of `TextFileRecorder`.
abbrev pub opened : {A : Type 0} → (ℕ → A) → System A
opened ring = record {
  recorder = record {
    file_open = true;
    ring = ring;
    read_index = 0;
    write_index = 0;
    stop_requested = false;
    worker_active = false;
    writer_active = false;
    writer_stop_requested = false;
    pending_write_batches = [];
    pending_write_bytes = 0;
    pending_write_event_count = 0;
    written_event_count = 0;
    total_dropped_write_event_count = 0;
  };
  local_read = 0;
  local_write = 0;
  draining = false;
  writer = WriterState.looking;
  accepted = [];
  processed = [];
  offered = 0;
}

module _ {A : Type 0} where
  -- `WorkerLoop` takes the indices, reads one event, and gives the slots back.
  abbrev pub begin_drain : System A → System A
  begin_drain s = record s {
    recorder = record s.recorder {
      worker_active = not (s.recorder.read_index == s.recorder.write_index);
    };
    local_read = s.recorder.read_index;
    local_write = s.recorder.write_index;
    draining = true;
  }

  abbrev pub process_event : System A → System A
  process_event s = record s {
    local_read = next_slot s.local_read;
    processed = s.processed ++ s.recorder.ring s.local_read ∷ [];
  }

  abbrev pub end_drain : System A → System A
  end_drain s = record s {
    recorder = record s.recorder { worker_active = false; read_index = s.local_read };
    draining = false;
  }

  pub data Step (s : System A) : System A → Type 0 where
    produce :
        (event : A) (r : TextFileRecorder A)
        → enqueue s.recorder event ≡ Enqueued.stored r
        → Step s (record s { recorder = r; accepted = s.accepted ++ event ∷ [] })
    begin : s.draining ≡ false → Step s (begin_drain s)
    process : s.draining ≡ true → s.local_read ≢ s.local_write → Step s (process_event s)
    flush :
        (text : List ℕ) (count : ℕ) (r : TextFileRecorder A)
        → s.draining ≡ true
        → length text < u64_mod
        → enqueue_write s.recorder text count ≡ WriteEnqueued.returned r
        → Step s (record s { recorder = r; offered = s.offered + count })
    commit : s.draining ≡ true → s.local_read ≡ s.local_write → Step s (end_drain s)
    stop_worker : Step s (record s { recorder = record s.recorder { stop_requested = true } })
    stop_writer :
        Step s (record s { recorder = record s.recorder { writer_stop_requested = true } })
    take_batch :
        (batch : PendingWriteBatch) (rest : List PendingWriteBatch)
        → s.writer ≡ WriterState.looking
        → s.recorder.pending_write_batches ≡ batch ∷ rest
        → Step s (record s {
          recorder = pop_batch s.recorder batch rest;
          writer = WriterState.taken batch;
        })
    activate :
        (batch : PendingWriteBatch)
        → s.writer ≡ WriterState.taken batch
        → Step s (record s {
          recorder = record s.recorder { writer_active = true };
          writer = WriterState.writing batch;
        })
    written :
        (batch : PendingWriteBatch)
        → s.writer ≡ WriterState.writing batch
        → Step s (record s {
          recorder = finish_batch s.recorder batch true;
          writer = WriterState.looking;
        })
    failed :
        (batch : PendingWriteBatch)
        → s.writer ≡ WriterState.writing batch
        → Step s (record s {
          recorder = finish_batch s.recorder batch false;
          writer = WriterState.exited;
        })
    leave :
        s.writer ≡ WriterState.looking
        → s.recorder.pending_write_batches ≡ []
        → s.recorder.writer_stop_requested ≡ true
        → Step s (record s { writer = WriterState.exited })

  pub data Run (start : System A) : System A → Type 0 where
    begun : Run start start
    then_step : {s t : System A} → Run start s → Step s t → Run start t
