-- ===== src/Lib.antt =====
-- Verification of the profiler: a library that samples the stacks of threads, collects the samples and
-- the markers of the program in a buffer, and writes them as a profile in JSON.
--
-- The program's parts. The main thread core (src/core.rs) starts two threads, which talk by channels.
-- The sampler thread (src/sampler_thread.rs) keeps one sampler for each registered thread; while it is
-- not paused and has no message to handle, it suspends and samples each in turn and sends the samples
-- to the buffer thread. The buffer thread (src/buffer_thread.rs) stores samples and markers in two
-- buffers whose entries have a creation time (src/time_expiring_buffer.rs), and on request builds the
-- profile: for each thread, `SamplesSerializer` (src/sampler.rs) turns the samples into a table of
-- stacks, and a `StringTable` (src/sampler.rs) numbers the texts of markers and addresses.
-- A process starts as the app or as the profiler service by its arguments (src/startup.rs).
--
-- Which file models which part:
--   Prelude              the names and lemmas that all share: lists measured by native numbers,
--                        Boolean tests, results
--   Json                 what is used of the crate serde_json, as a parameter: the values, their
--                        constructors and two accessors with their documented behaviour
--   Address              src/sampler.rs, `ProcessMemoryAddress` and its text form
--   NativeStack          src/sampler.rs, `NativeStack`, the arrays of 1024 addresses
--   StringTable          src/sampler.rs, `StringTable`; `string_to_index` is an association list
--   SamplesSerializer    src/sampler.rs, `SamplesSerializer::new`, one function for each loop, and in
--                        Tables the JSON tables that it writes; Fixtures has the helpers of its tests
--   TimeExpiringBuffer   src/time_expiring_buffer.rs; the clock is an argument of each call
--   Registrar            src/core.rs, `ThreadRegistrar`, the thread-local values and the calls of
--                        `MainThreadCore` that send to the sampler thread
--   Core                 src/core.rs, the requests of `MainThreadCore` and `add_marker`, with the queue of
--                        the buffer thread and the replies; an event is a send, a round of the buffer
--                        thread or a receive, and a run is any list of events
--   StackWalk            src/sampler_mac.rs, `critical_frame_pointer_stack_walk`; memory is a function
--   MacSampler           src/sampler_mac.rs, `suspend_and_sample_thread` and the calls that it makes;
--                        the calls of the Mach kernel are a parameter with the documented laws
--   OutputJson           examples/output-json.rs, the calls of `main` that wait for a reply, among the
--                        moves of the other threads
--   Extraction           src/core.rs, the helpers of its tests that read markers out of a profile; the
--                        members of JSON objects are a parameter with their documented behaviour
--   Fibonacci            examples/utils/mod.rs; the crate num_bigint is a parameter
--   Markers              src/markers.rs; a boxed marker is a record with its `serialize`
--   BufferThread         src/buffer_thread.rs; `handle` is one round of `start`, `run` the loop
--   Recording            the two threads together: where the samples of the buffer come from
--   SamplerThread        src/sampler_thread.rs; `iterate` is one round of `start`, `run` the loop
--   Ipc                  what is used of the crate ipc-channel, as a parameter with its documented
--                        behaviour
--   Startup              src/startup.rs, the readers of the arguments, and in Launch the two processes
--                        of the handshake, each between two of its calls
-- The children of a file hold its proofs, named for what they prove, and its tests.
--
-- How code is translated. A method that changes its object returns the new object. A panic is a value
-- of `Fault`, `Round`, `Status` or `Ending`, a state of its own in `CoreState`, `App` and `Service`,
-- or `none` where an `Option` is the result; what ends the process is one of `End` or `WalkFault`.
-- What comes from outside is an argument: the messages in the order in which a channel yields them,
-- the clock in nanoseconds, whether the other end of a channel still listens, the outcome of each
-- attempt to sample a thread, the process id. Threads and processes that run at the same time are a
-- list of events, of turns or of movers, each of them one step of one part. Each round of the sampler
-- thread is given how many sends the buffer thread accepts in it: the next one fails, which panics,
-- and the samples sent before it stay sent. A marker's `serialize` is a total function, as the only
-- one in src/ is: a marker whose `serialize` panics is not modelled. `Instant::duration_since`
-- saturates at zero, as it does since Rust 1.60. Indices are native numbers: each is below the length
-- of a vector in memory and does not overflow. In StackWalk and MacSampler, addresses and sizes are
-- unbounded numbers, so the product `stacksize * 8` and the sums of pointers do not wrap: bounds near
-- the end of the 64-bit space, at which they would, are outside the model. Crates are parameters with
-- their documented behaviour as laws: serde_json in Json and Extraction, ipc-channel in Ipc, mach in
-- MacSampler, num_bigint in Fibonacci.
--
-- Bounds and fuel. The inner loop of `SamplesSerializer::new` runs on fuel, the length of the stack
-- table and one more: each round moves one entry on and the loop stops at the end of the table.
-- The stack walk runs on fuel, the 1024 places of a `NativeStack` and one more: each round that goes on
-- fills a place.
-- `format_hex` prints at most sixteen digits; an address of 64 bits has no more. All other loops are
-- recursions on lists.
--
-- Not modelled: the logging of src/startup.rs; src/lib.rs, which declares the modules; and of examples/
-- the threads that `main` starts and joins and the file that it writes.
-- `thread::sleep` has no effect on the state.
mod Prelude
pub mod Core
pub mod Ipc
pub mod Fibonacci
pub mod Recording
pub mod Extraction
pub mod OutputJson
pub mod Json
pub mod Address
pub mod NativeStack
pub mod SamplesSerializer
pub mod StringTable
pub mod Registrar
pub mod Startup
pub mod StackWalk
pub mod SamplerThread
pub mod MacSampler
pub mod Markers
pub mod BufferThread
pub mod TimeExpiringBuffer
