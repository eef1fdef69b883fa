-- ===== src/Tests/Recording.antt =====
-- The theorems on the recorder at concrete inputs: one event through the ring, a write that fails
-- with a batch behind it, and a text that is written in two parts.
use vd_trace.Base.{
  ℕ, ◌+◌, ◌-◌, ◌≤◌, ◌≡◌, ◌↔◌, refl, true, false, [], ◌∷◌, ◌++◌, Option, some, arith, length, min,
}
use vd_trace.Recorder.{
  PendingWriteBatch, TextFileRecorder, Enqueued, enqueue, enqueue_write, producer_wakes, put,
  push_batch, is_writing, pending_between, pending_event_count, ring_capacity, finish_batch,
  pop_batch, signal_writer_stop,
}
use vd_trace.Recorder.Steps.{System, WriterState, opened, Step, Run, begin_drain, process_event}
use vd_trace.Recorder.Ring.{slots, Run-fifo, enqueue-waits}
use vd_trace.Recorder.Queue.{IsAccounted, Run-IsAccounted}
use vd_trace.Recorder.Stuck.{exited-is_writing}
use vd_trace.Recorder.Write.{Writes, write_text, write_text-Writes, IsBounded}

abbrev zeros : ℕ → ℕ
zeros i = 0

abbrev fresh : System ℕ
fresh = opened zeros

abbrev stored_one : System ℕ
stored_one = record fresh {
  recorder = record fresh.recorder { ring = put zeros 0 7; write_index = 1 };
  accepted = 7 ∷ [];
}

store_one : Step fresh stored_one
unfolding enqueue
store_one = Step.produce 7 stored_one.recorder refl

abbrev read_one : System ℕ
read_one = process_event (begin_drain stored_one)

one_event : Run fresh read_one
one_event =
    Run.then_step (Run.then_step (Run.then_step Run.begun store_one) (Step.begin refl))
      (Step.process refl (omega arith))

Run-fifo_example :
    (read_one.accepted
      ≡ read_one.processed
        ++ slots read_one.recorder.ring read_one.local_read
            (pending_between read_one.local_read read_one.recorder.write_index))
    × (pending_event_count read_one.recorder ≤ ring_capacity - 1)
    × (read_one.draining ≡ false
        → length read_one.accepted
          ≡ length read_one.processed + pending_event_count read_one.recorder)
Run-fifo_example = Run-fifo zeros {s = read_one} one_event

abbrev full : TextFileRecorder ℕ
full = record fresh.recorder { write_index = 9; read_index = 10 }

enqueue-waits_example : (enqueue full 7 ≡ Enqueued.waits) ↔ (producer_wakes full ≡ false)
enqueue-waits_example = enqueue-waits full 7 refl refl (omega arith) (omega arith)

abbrev first_batch : PendingWriteBatch
first_batch = record { text = 65 ∷ []; event_count = 1 }

abbrev second_batch : PendingWriteBatch
second_batch = record { text = 66 ∷ 10 ∷ []; event_count = 2 }

abbrev draining : System ℕ
draining = begin_drain fresh

abbrev flushed_one : System ℕ
flushed_one = record draining { recorder = push_batch draining.recorder (65 ∷ []) 1; offered = 1 }

abbrev flushed_two : System ℕ
flushed_two = record draining {
  recorder = push_batch flushed_one.recorder (66 ∷ 10 ∷ []) 2;
  offered = 3;
}

flush_one : Step draining flushed_one
unfolding enqueue_write
flush_one = Step.flush (65 ∷ []) 1 flushed_one.recorder refl (omega arith) refl

flush_two : Step flushed_one flushed_two
unfolding enqueue_write
flush_two = Step.flush (66 ∷ 10 ∷ []) 2 flushed_two.recorder refl (omega arith) refl

two_batches : Run fresh flushed_two
two_batches =
    Run.then_step (Run.then_step (Run.then_step Run.begun (Step.begin refl)) flush_one) flush_two

Run-IsAccounted_example : IsAccounted flushed_two.recorder WriterState.looking 3
Run-IsAccounted_example = Run-IsAccounted zeros {s = flushed_two} two_batches

abbrev held : System ℕ
held = record flushed_two {
  recorder = pop_batch flushed_two.recorder first_batch (second_batch ∷ []);
  writer = WriterState.taken first_batch;
}

abbrev begun_write : System ℕ
begun_write = record held {
  recorder = record held.recorder { writer_active = true };
  writer = WriterState.writing first_batch;
}

abbrev failed_write : System ℕ
failed_write = record begun_write {
  recorder = finish_batch begun_write.recorder first_batch false;
  writer = WriterState.exited;
}

failing_steps : Run fresh failed_write
failing_steps =
    Run.then_step
      (Run.then_step
        (Run.then_step two_batches (Step.take_batch first_batch (second_batch ∷ []) refl refl))
        (Step.activate first_batch refl))
      (Step.failed first_batch refl)

one_left : 1 ≤ length failed_write.recorder.pending_write_batches
unfolding finish_batch pop_batch signal_writer_stop
one_left = omega arith

exited-is_writing_example :
    (is_writing failed_write.recorder ≡ true)
    × (failed_write.recorder.written_event_count ≡ failed_write.recorder.written_event_count)
    × (1 ≤ length failed_write.recorder.pending_write_batches)
exited-is_writing_example =
    exited-is_writing zeros {s = failed_write} {t = failed_write} failing_steps refl one_left
      Run.begun

-- At most two bytes are written by each call.
abbrev by_twos : ℕ → ℕ → Option ℕ
by_twos call chunk = some (min 2 chunk)

by_twos-IsBounded : IsBounded by_twos
by_twos-IsBounded call chunk written e = ground arith

write_text-Writes_example :
    Writes by_twos (9 ∷ []) (1 ∷ 2 ∷ 3 ∷ []) (write_text by_twos true (9 ∷ []) (1 ∷ 2 ∷ 3 ∷ []))
write_text-Writes_example = write_text-Writes by_twos by_twos-IsBounded (9 ∷ []) (1 ∷ 2 ∷ 3 ∷ [])
