-- ===== src/Lib.antt =====
-- tcpsnitch, a library that is loaded before the C library and traces the sockets of a
-- program: each intercepted call on a socket runs a hook, which stores an event in the socket
-- of its descriptor; the events become lines of one JSON file for each socket, when the socket
-- is closed and from time to time.
--
-- The parts and their files:
-- - resizable_array.c, the table of sockets: Registry holds the state (a read-write lock, the
--   array, its size) and one function for each operation, over any type of elements; `none` is
--   a null pointer. Registry.View is the abstract view, a partial map, and the states of the
--   locks between calls (`Idle`) and while one element is locked (`Held`); Registry.Slots,
--   Registry.Locking, Registry.Update and Registry.Sizes relate the operations to it.
-- - sock_events.h: Event has the types of events, what each records, and the socket.
--   Event.Fill has the functions of sock_events.c that fill an event from the arguments of a
--   call, and Event.Fill.Laws what they give. Event.Nodes has the linked list of a socket on a
--   store of nodes, and Event.Nodes.Chain and Event.Nodes.Refine relate it to the list of its
--   events; the addresses are those that malloc gives, and freeing the list takes as many
--   rounds as there are events. Event.Kinds and Event.Whole say which structure an event of a
--   type has, and how long the blocks that it points to have to be.
-- - string_builders.c: Text, with Text.Digits on decimal numbers and Text.Paths on paths.
-- - lib.c: CLib, with CLib.Numbers on the numbers of the environment.
-- - init.c and the state of logger.c: Init, with Init.LogsDir on the directory of the traces
--   and Init.Once on the start of the library.
-- - sock_events.c: Sockets has the private functions on sockets and events, Tracer the macros
--   SOCK_EV_PRELUDE, DUP_SOCKET and SOCK_EV_POSTLUDE as `ev_prelude`, `dup_socket`,
--   `ev_finish` and `ev_postlude`, and their composition `ev_handler`, of which every hook is
--   an instance; Tracer.Handlers and Tracer.IoHandlers have one function for each hook,
--   Tracer.Dump the functions over all sockets.
-- - libc_overrides.c: Overrides has the functions that the program calls in place of those of
--   the C library; each takes the answer of the original function and gives what the program
--   sees.
-- - constants.c and constants/: Constants has the search in the arrays of names and the
--   functions on it, Constants.Tables the names in the arrays, in their order; which of them
--   the arrays hold, and with which values, is up to the headers of the system (`Headers`).
--   Constants.Named is about the names that are printed.
-- - json_builder.c: Json has the operations of jansson (`Jansson`), their laws (`IsJansson`)
--   and the answers of the C library that the texts depend on (`Names`); a list of entries
--   stands for the calls of `add` one after the other. Json.Memory reads numbers from blocks,
--   Json.Flags, Json.Parts and Json.Sockopts build the parts, Json.Fields the fields of all
--   events with BUILD_EV_PRELUDE, Json.SocketEvents and Json.IoEvents have one function for
--   each type, and Json.Build the dispatch on the type. Json.Contents says, apart from these,
--   what an event holds; Json.Reported what a reader finds in an object; Json.Kinds,
--   Json.Whole, Json.WholeOptions and Json.Total relate the functions to both.
-- - verbose_mode.c: Verbose has the line that is shown for an event, with its buffers, and
--   Verbose.Lines is about it.
-- - packet_sniffer.c: Capture.Start has the start of a capture over the answers of libpcap
--   (`Sniffer`), Tracer.Capture with Tracer.Ports what sock_events.c does for it,
--   Overrides.Connect the function that asks for it; Spec.Capturing and Spec.Connect are about
--   these. Capture has the filter of a capture and the texts of addresses from
--   string_builders.c that it is built from; Capture.Filter is about the buffers of both.
-- - Spec: what the tracer promises. `Abs` is the abstract state (which socket each
--   descriptor has, how many sockets have been numbered, which lines are written), `Shows`
--   relates it to the state of the program between calls and `ShowsHeld` while a hook
--   holds a socket. Spec.Calls gives for each call its hook, Spec.Effects, apart from the
--   hooks, the effect that each is to have; Spec.Steps what steps an effect allows;
--   Spec.Takes and Spec.Refine set the hooks against them; Spec.Runs, Spec.Invariant,
--   Spec.Changes and Spec.Frame follow series of calls; Spec.Stored, Spec.Fitting and
--   Spec.Typed follow the structures of events, by Event.Whole, and Spec.Told the objects
--   that are made of them; Spec.Observed and Spec.Selected relate the functions of
--   Overrides to the calls that they record; Spec.Dump, Spec.Sweep and Spec.Drain follow
--   the writing of lines, Spec.Settled, Spec.Steady and Spec.Readied the directory and the
--   options, Spec.Due the test for a reading of TCP_INFO, Spec.Sessions whole runs, and
--   Spec.Fork, Spec.Heirs and Spec.Forked the new start in a forked child; Spec.Actions
--   puts rounds of the dumper thread between the calls, and Spec.Ended adds the end of the
--   process.
-- - Base, Outcome, Bytes and World are shared: numbers and lists, results with faults, memory
--   as bytes, and the state of the whole library. Examples has concrete runs.
--
-- A function that can go wrong gives an `Outcome`: an access outside the objects of the
-- program, a lock that is never released or an endless loop is a fault. `Returns P` says that
-- there is none and that the result has the property `P`.
--
-- Code outside the repository is a parameter: `Printer` stands for inet_ntop, and a `Kernel`
-- holds the answers of system calls, the C library, jansson and pthreads, and each call of a
-- series can meet other answers. `IsSane` asks that a command line ends with a null byte and
-- that a directory has finitely many entries, which bounds the fuel of the search for a free
-- directory (`dir_limit` plus one rounds are enough); `Serialises` asks that jansson makes a
-- text of every event. In the hooks whether there is such a text is an answer of the
-- surroundings; the building of the object that it is made of is in Json. `Jansson` is a second view of jansson, as operations on values; the
-- references between the objects of an event are not followed, so that the details, which are
-- filled once the event's object refers to them, are filled before. The fuel of the loops over
-- the table is its size and one more round: no round changes the size. The numbers of Linux
-- are used for flags and options. A legal call passes blocks that are as long as it says, and
-- makes a descriptor other than the one that it is about.
--
-- A hook runs as a whole before the next one: threads that wait for each other's locks are not
-- modelled. The dumper thread runs in whole rounds, which can come between any two hooks.
-- Memory is taken to be available. What the threads of a packet capture do (packet_sniffer.c)
-- is not modelled.
pub mod Base
pub mod Outcome
pub mod Registry
pub mod Bytes
pub mod Constants
pub mod Event
pub mod Text
pub mod Kernel
pub mod CLib
pub mod Verbose
pub mod World
pub mod Init
pub mod Json
pub mod Sockets
pub mod Tracer
pub mod Overrides
pub mod Capture
pub mod Examples
pub mod Spec
