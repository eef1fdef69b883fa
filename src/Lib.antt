-- ===== src/Lib.antt =====
-- VD-Trace: a control-flow tracer for Windows processes. A thread under trace runs on hardware
-- breakpoints (src/core/hardware) or on the trap flag (src/core/decoder); both ask the same policy
-- which addresses are recorded and which calls are followed (src/core/depth_filter), and both hand
-- their events to a recorder with a worker and a writer thread (src/core/recorder).
--
-- The parts and their files:
--
--   Session      the data of include/VDTrace/VDTrace.h, src/core/runtime/VDTraceInternalTypes.h and
--                src/core/runtime/VDTraceInternal.h: `Impl` is the part of `Session::Impl` that the
--                tracing thread reads and writes, with the thread's region cache.
--   Regions      src/core/depth_filter/VDTraceDepthFilterResolve.cpp: what an address is.
--                `resolve_execution_address` is `ResolveExecutionAddress`, with the thread-local cache
--                passed in and out. Regions.Policy has the depth limits and the two decisions on
--                calls, Regions.Lookup the binary searches, Regions.Cache the cache, and
--                Regions.Cache.Changing its answers while the memory changes.
--   DepthFilter  src/core/depth_filter/VDTraceDepthFilter.cpp: the text of a depth filter.
--                DepthFilter.Rules is `ParseDepthFilterSpec`; what it yields is what Regions reads.
--   Hardware     src/core/hardware: the debug registers (VDTraceHardwareContext.cpp), the watched
--                addresses (VDTraceHardwareObserve.cpp) and the basic blocks (VDTraceHardware.cpp).
--                Hardware.Program is `ProgramHardwareObservationImpl`, which reads a block, asks
--                the policy and programs the registers. Hardware.Transition is
--                VDTraceHardwareTransitionSupport.cpp: what happens when a block has ended, and
--                Hardware.Transition.Finalize is `FinalizeHardwareTransition`, which composes it.
--                Hardware.Exception is `HandleHardwareFlowException`, one call for each debug
--                exception of the traced thread.
--   TrapFlag     src/core/decoder: the call stack of the other backend (VDTraceDecoderSupport.cpp),
--                and in TrapFlag.Handler `HandleTrapFlagTraceException` (VDTraceDecoder.cpp).
--                TrapFlag.Stack and TrapFlag.Steady are about its stacks.
--   Runtime      what both handlers use: src/core/runtime/VDTraceRuntimeState.cpp and
--                VDTraceRuntimeSupport.cpp, in Runtime.Handoff the request to trace a new thread
--                (src/core/async/VDTraceAsyncHandoff.cpp) and in Runtime.Rotation the way back to the
--                trigger (src/core/trigger/VDTraceTriggerCapture.cpp). A handler returns what it tells
--                Windows, the session and the context.
--   Probe        src/core/probe/VDTraceProbe.cpp and src/core/observer/VDTraceObserver.cpp: the probes
--                that emit an event, and in Probe.Local those that step through a region.
--   TrapWindow   src/core/runtime/VDTraceExecutionMode.cpp: the regions in which the hardware backend
--                steps by the trap flag, and the way back.
--   Trigger      src/core/trigger/VDTraceTriggerWait.cpp: the wait of a session's own thread for its
--                trigger, and how an exception of this thread comes to its handler
--                (`handle_own_exception`, the end of `Session::Impl::HandleException`). Trigger.Search
--                is about the search of the stack in src/core/threading/VDTraceThreadContext.cpp.
--   Recorder     src/core/recorder/VDTraceFileSinkWorker.cpp, VDTraceFileSinkWorkerProcess.cpp and
--                VDTraceFileSinkWriter.cpp: the ring of events, the queue of batches and `WriteText`.
--                Recorder.Steps has the threads as steps on the shared state; some accesses to atomics
--                that follow each other are one step, as the file says.
--   PeLayout     src/agent/VDTracePeLayout.cpp: a dumped image becomes a file, over its bytes.
--   Autostart    src/autostart/VDTraceAutoStartConfigText.cpp: the sections and values of the text of
--                the configuration.
--   Tests        concrete inputs at which the theorems are applied.
--
-- Conventions: a C++ function `DoThis` is `do_this`; a mutated session is passed in and returned; an
-- out-parameter is part of the result; an error text is a cause or none. Addresses and counters are
-- natural numbers, with the wrap-around at 2 ^ 64 or 2 ^ 32 written out where the source can wrap. A
-- `std::vector` used as a stack has its back at the head of the list.
--
-- Bounds and fuel: `AnalyzeBasicBlock` counts down the instructions that its limit leaves, so that no
-- fuel is needed. `WriteText` runs on the length of the text as fuel: each round writes a byte or more.
--
-- Parameters, for what is not code of the repository: `virtual_query` is `VirtualQuery`,
-- `decode_instruction` is `DecodeInstruction` over the disassembler Zydis and the traced memory,
-- `resolve_module_range` asks Windows for a loaded module, `write_file` is `WriteFile`. The handlers
-- take them from the record `Machine`, with the reads of the traced thread's registers and memory and
-- the search of threads that `BeginTriggerThreadCapture` makes.
--
-- Not modelled: the start and the stop of a session, the list of captured threads and the handlers of
-- other threads than the traced one, the text of probe rules, the worker of the handoffs, static
-- references, samples of memory, the text formats of events, the agent but for the layout of images,
-- the catch branches of the recorder's writer, the autostart helper but for its text, the control tools, the GUI and the plugins: most of these are
-- calls of Windows or of Zydis. The branches of the handlers for a null context are left out, as the
-- vectored handler always has one.
pub mod Base
pub mod Session
pub mod Runtime
pub mod Probe
pub mod TrapWindow
pub mod Regions
pub mod Hardware
pub mod Recorder
pub mod DepthFilter
pub mod TrapFlag
pub mod PeLayout
pub mod Trigger
pub mod Autostart
pub mod Tests
