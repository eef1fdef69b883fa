-- ===== src/Recorder.antt =====
-- src/core/recorder: the ring of events between the traced threads and the worker, and the queue
-- of batches between the worker and the writer (VDTraceFileSinkInternal.h,
-- VDTraceFileSinkWorker.cpp, VDTraceFileSinkWorkerProcess.cpp, VDTraceFileSinkWriter.cpp). A
-- `std::string` is the list of its bytes. A wait on a condition variable is the result `waits`: the
-- caller tries again once its condition holds.
pub mod Steps
pub mod Ring
pub mod Queue
pub mod Stuck
pub mod Write
use vd_trace.Base.{
  ℕ, ◌+◌, ◌-◌, ◌%◌, ◌≡◌, Bool, true, false, not, ◌&&◌, ◌||◌, List, [], ◌∷◌, ◌++◌, ltb, leb, ◌==◌,
  if◌then◌else◌, u64_mod, length,
}

-- `kRecorderRingCapacity`
abbrev pub ring_capacity : ℕ
ring_capacity = 655360

-- `kMaxPendingWriteBytes`
abbrev pub max_pending_write_bytes : ℕ
max_pending_write_bytes = 16777216

pub record PendingWriteBatch : Type 0 where
  pub text : List ℕ
  pub event_count : ℕ

-- The fields of `TextFileRecorder::Impl` that the threads share; `A` is `RecorderQueuedEvent`.
pub record TextFileRecorder (A : Type 0) : Type 0 where
  pub file_open : Bool
  pub ring : ℕ → A
  pub read_index : ℕ
  pub write_index : ℕ
  pub stop_requested : Bool
  pub worker_active : Bool
  pub writer_active : Bool
  pub writer_stop_requested : Bool
  pub pending_write_batches : List PendingWriteBatch
  pub pending_write_bytes : ℕ
  pub pending_write_event_count : ℕ
  pub written_event_count : ℕ
  pub total_dropped_write_event_count : ℕ

-- What `PendingEventCount` computes of the two indices.
unfoldable pub pending_between : ℕ → ℕ → ℕ
pending_between read write = if leb read write then write - read else (ring_capacity - read) + write

abbrev pub next_slot : ℕ → ℕ
next_slot i = (i + 1) % ring_capacity

-- `Enqueue`: it returns without a trace of the event, stores it, or waits for room.
pub data Enqueued (A : Type 0) : Type 0 where
  refused waits : Enqueued A
  stored : TextFileRecorder A → Enqueued A

pub data WriteEnqueued (A : Type 0) : Type 0 where
  write_waits : WriteEnqueued A
  returned : TextFileRecorder A → WriteEnqueued A

module _ {A : Type 0} where
  abbrev pub pending_event_count : TextFileRecorder A → ℕ
  pending_event_count r = pending_between r.read_index r.write_index

  -- ring[write] = queued
  abbrev pub put : (ℕ → A) → ℕ → A → ℕ → A
  put ring i event j = if j == i then event else ring j

  unfoldable pub enqueue : TextFileRecorder A → A → Enqueued A
  enqueue r event =
      if not r.file_open || r.stop_requested
      then refused
      else if not (next_slot r.write_index == r.read_index)
      then stored (record r {
        ring = put r.ring r.write_index event;
        write_index = next_slot r.write_index;
      })
      else waits

  -- The condition that a waiting producer goes on at.
  unfoldable pub producer_wakes : TextFileRecorder A → Bool
  producer_wakes r = r.stop_requested || ltb (pending_event_count r) (ring_capacity - 1)

  unfoldable pub is_writing : TextFileRecorder A → Bool
  is_writing r =
      r.worker_active
      || r.writer_active
      || not (pending_event_count r == 0)
      || not (r.pending_write_bytes == 0)

  abbrev pub drop_write : TextFileRecorder A → ℕ → TextFileRecorder A
  drop_write r count = if count == 0 then r else record r {
    total_dropped_write_event_count = (r.total_dropped_write_event_count + count) % u64_mod;
  }

  abbrev pub push_batch : TextFileRecorder A → List ℕ → ℕ → TextFileRecorder A
  push_batch r text count = record r {
    pending_write_bytes = (r.pending_write_bytes + length text) % u64_mod;
    pending_write_event_count = (r.pending_write_event_count + count) % u64_mod;
    pending_write_batches =
        r.pending_write_batches ++ record { text = text; event_count = count } ∷ [];
  }

  -- The condition that `EnqueueWrite` waits for.
  abbrev pub may_enqueue : TextFileRecorder A → ℕ → Bool
  may_enqueue r text_size =
      r.writer_stop_requested
      || r.pending_write_bytes == 0
      || (leb text_size max_pending_write_bytes
          && leb r.pending_write_bytes (max_pending_write_bytes - text_size))

  -- The tests before the wait and the one behind it agree on a stop, so that trying again from
  -- the front is what the source does after the wait.
  unfoldable pub enqueue_write : TextFileRecorder A → List ℕ → ℕ → WriteEnqueued A
  enqueue_write r text count =
      if not r.file_open || length text == 0 || r.writer_stop_requested
      then returned (drop_write r count)
      else if may_enqueue r (length text)
      then returned (push_batch r text count)
      else write_waits

  -- The part of `WriterLoop` under the lock: the front batch, if there is one, leaves the queue.
  unfoldable pub pop_batch :
      TextFileRecorder A → PendingWriteBatch → List PendingWriteBatch → TextFileRecorder A
  pop_batch r batch rest = record r {
    pending_write_batches = rest;
    pending_write_bytes =
        (r.pending_write_bytes + (u64_mod - length batch.text % u64_mod)) % u64_mod;
    pending_write_event_count =
        (r.pending_write_event_count + (u64_mod - batch.event_count % u64_mod)) % u64_mod;
  }

  unfoldable pub signal_writer_stop : TextFileRecorder A → ℕ → TextFileRecorder A
  signal_writer_stop r dropped_events =
      let d = drop_write r dropped_events in
      record d { writer_active = false; stop_requested = true; writer_stop_requested = true }

  -- The part of `WriterLoop` behind `WriteText`.
  unfoldable pub finish_batch : TextFileRecorder A → PendingWriteBatch → Bool → TextFileRecorder A
  unfolding signal_writer_stop
  finish_batch r batch true = record r {
    writer_active = false;
    written_event_count = (r.written_event_count + batch.event_count) % u64_mod;
  }
  finish_batch r batch false =
      signal_writer_stop (record r { writer_active = false }) batch.event_count
