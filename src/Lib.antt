-- ===== src/Lib.antt =====
-- The Cloud IXL: an interlocking that sets the routes of a small station and commands a light signal
-- through an Object Controller (OC), by SCI-LS telegrams over a RaSTA connection.
--
-- The parts of the program, from the operator's request down to the bytes, and their files here:
--
--   Ixl      src/cloud_ixl/c/cloud_ixl_logic.c, cloud_ixl_routes.c, cloud_ixl_state.c and
--            cloud_ixl_output.c with their headers. `IxlState` is `IXL_state`, its arrays as lists;
--            a NULL pointer is `none`. `request_route_decision`, `release_route` and what they call
--            have the names of the C functions, and each loop is a recursion of its own.
--            Ixl/Logic/Grant is about when a request is granted, Ixl/Logic/Safety about the routes
--            that are held together.
--   Pdi      src/cloud_ixl/c/main.c: the connection to the OC. `Pdi` is `pdi_state` with the
--            payload that is expected. Pdi/State has the functions that change it, Pdi/Receive the
--            handling of a received message, and Pdi/Events the callbacks and the actions of the
--            main thread as events, each a `step`. The callbacks run under the lock
--            `receive_processing_lock` or change the state in one critical section, so a `run` of
--            any sequence of events has the interleavings of whole callbacks. A change of the RaSTA
--            connection between two critical sections of one received message is not among them.
--   Command  the command loop of `main` in src/cloud_ixl/c/main.c. `command_round` is one pass through
--            its body, for a request of the operator; what the other threads do meanwhile is an
--            argument, `Others`: the events before the command begins, before the first look at the
--            state, and up to each return of the wait. A wait may still go on at the end of the
--            events that are given, which is the outcome `waiting`.
--   Sci/Adapter  src/cloud_ixl/c/cloud_ixl_scils_adapter.c: the payloads of the signal aspects and
--            the two commands.
--   Sci/Icd  src/sci_ls_icd/c/sci_ls_icd.c: the project's own SCI-LS telegrams. A reader takes the
--            object that it writes to and gives it back, so that what a failed reader leaves in it
--            is a statement.
--   Sci/Scils  src/sci/c/scils.c: the table of partners, the sends and the dispatch. A message given
--            to RaSTA is the value `Outgoing`.
--   Sci/Telegram  src/sci/c/sci.c and sci_telegram_factory.c: telegrams and their bytes.
--   Bytes    src/rasta/c/rastautil.c and rastamodule.c: integers to bytes, for a host of either
--            byte order (the argument `big`).
--   Rasta/Packet  src/rasta/c/rastafactory.c: the packets of the safety and retransmission layer, and
--            the extraction of what they carry. The extraction's first loop recurses on a number of
--            passes, which is the number of bytes of the payload.
--   Rasta/Codec  src/rasta/c/rastamodule.c: these packets, and those of the redundancy layer around
--            them, as bytes. `rastamodule_lasterror` is an argument and a result, `failed`. The hash
--            with its key, and `crc_calculate`, are arguments.
--   Rasta/Fifo  src/rasta/c/fifo.c: the bounded queue as cells that link to one another in a store.
--            Rasta/Sr has the queues as lists, with the `fifo_push` that the cells are compared with.
--   Rasta/Sr  src/rasta/c/rasta_new.c and rastalist.c: the safety and retransmission layer.
--            `Connection` is `rasta_connection` without its diagnosis, and a statement of the C code
--            is an `Action`: the connection afterwards, with what was sent and notified as a list of
--            `Event`s. Checks has the tests of a received packet, Send what is sent and closed,
--            Handshake, Heartbeat and Data the handlers by the type of the packet, Receive, Threads
--            and Connections the bodies of the threads and the calls of the application. What the
--            layer takes from elsewhere, the clock, the random number, the codec and the contents of
--            unset memory, is the `Environment`, another one in each step. Steps puts the parts
--            together: a `Run` is any sequence of packets, of every type, timers and calls on one
--            connection, each under the lock of the connection.
--   Rasta/Red  src/rasta/c/rastaredundancy_new.c and rastadeferqueue.c: the redundancy layer, with the
--            names of the C functions. An `Outcome` says that a call returned, blocked at a mutex that
--            its own thread holds, followed a pointer that leads nowhere, or is still in its loop.
--            `Heap` is the memory of the received packets by address, since the queues hold pointers.
--            Queue is the queue of deferred packets, with `qsort` as an argument, Channel the delivery
--            of what waited, and Receive what a channel does with a packet. Runs is about packets that
--            arrive one after the other and stay in memory, Dangling about those that do not.
--   Rasta/Mux  src/rasta/c/rasta_red_multiplexer.c: the table of the channels. Send, Receive and
--            Retrieve are the calls of the safety layer and the receipt of a datagram, Threads one
--            pass of the timeout and of the diagnosis for a channel, on a copy of it of which
--            `keep_shared` says what the channel itself keeps.
--   Prelude  the lists, tests and lemmas that the parts share.
--
-- How the parts meet: a request changes `IxlState` and gives an aspect; the adapter turns the
-- aspect into a telegram, `scils_send_telegram` looks the OC up and gives its bytes to RaSTA. What
-- comes back is a datagram that Rasta/Mux decodes and gives to a channel of Rasta/Red, whose queue
-- the safety layer takes packets from; it passes the handlers of Rasta/Sr and the queue of the
-- application, is decoded by Sci/Telegram, checked and dispatched by Pdi/Receive, and read by
-- Sci/Icd.
--
-- Bounds: a 16 or 32 bit integer is a number with the wrap-around of the code written out. The
-- loops of the routes are recursions on the number of rounds left, which begins at the number of
-- routes, and the loops of the wait, of the commands and of the queues recurse on lists. Four loops
-- are on fuel. A pass of the first loop of the extraction goes on by two bytes at least, so as many
-- passes as there are bytes are enough; a pass of the loop of `fifo_destroy` raises its counter and
-- never the size, so as many passes as the size are enough. A pass of the loop of
-- `deliverDeferQueue` takes an element out of the queue, so one pass more than it has elements is
-- enough. The loop of `redundancy_mux_retrieve_all` has one pass for each channel; where none has a
-- message it waits for another thread, and the outcome is `goes_on`, as for every wait of
-- Rasta/Mux. A write through an index past the array of transport channels changes nothing here. An
-- unsigned long has 64 bits. A C string is the list of its characters before the NUL.
-- Where a length field announces more bytes than an array has, the code reads the memory that
-- follows: that is the argument `beyond`, for a packet, a datagram of the redundancy layer and the
-- messages of the application.
--
-- Not modelled: memory allocation (but for the cells of fifo.c and the received packets), clocks
-- and printing; locks, but for those of Rasta/Red and Rasta/Mux; the environment variables and the
-- terminal (cloud_ixl_input.c, cloud_ixl_format.c and the configuration in main.c); what `main`
-- does before its loop, but for the initial state; the hash map of src/sci/c/hashmap.c, a copy of a
-- library, which is a function from keys to values here and whose answer to an insertion is an
-- argument; and, in src/rasta, the check sums of rastacrc.c, the hashes, the counts for diagnosis
-- of the safety layer, the start and the end of the threads and their loops, the configuration and
-- the sockets. The clock stands still within one step of the safety and retransmission layer.
pub mod Bytes
pub mod Command
pub mod Ixl
pub mod Pdi
pub mod Prelude
pub mod Rasta
pub mod Sci
