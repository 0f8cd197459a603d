-- ===== src/Lib.antt =====
-- eBaF enciphers and deciphers UDP payloads inside the Linux kernel. A user program (src/user/)
-- parses the command line, loads the packet programs (src/bpf/) and puts the configuration into a
-- map; the program of src/bpf/crypto_ctx.bpf.c then makes a crypto context from the configured key
-- and puts it into another map. On each packet, the XDP program or a TC program looks both up,
-- checks the packet, calls the kernel's cipher on its body in place, counts what happened in
-- per-CPU counters, and reports the packet to the user program through a ring buffer.
--
-- Files and the code they model:
--   Base: numbers, Boolean tests, lists, byte ranges and C strings; no code of the repository.
--   Flow: the early returns that the packet programs share, as a small monad: each check either
--     goes on or leaves the program through one exit, which says what is counted.
--   Wire: include/crypto_common.h, its constants and structures.
--   Kernel: the kernel functions that the programs call, as a record of functions, the behaviour
--     that is assumed of them (Kernel/Laws), and what a cipher call in place does to the bytes of a
--     packet (Kernel/InPlace).
--   Machine: the state of one run (packet, maps, events), stat_inc, stat_reason and the exits of
--     the packet programs; Machine/Accounts how counters add up.
--   Framed: what these two programs do alike on a frame with an eBaF header (emit_crypto_event, the
--     code behind the cipher), as a record `Framed` that each fills with its own checks and calls,
--     and the contract `IsFramed` that their theorems fill; runs, round trips, events and
--     sequences of packets are proved from the contract once, in Framed/.
--   Xdp: xdp_crypto of src/bpf/xdp_crypto.bpf.c. TcCrypto: tc_crypto of src/bpf/tc_crypto.bpf.c.
--     In each, Shape describes the accepted frames, Program fills the contract, and Laws and
--     RoundTrip have the theorems on whole runs.
--   Transparent: tc_transparent of src/bpf/tc_transparent.bpf.c, as steps on the state (Machine/Act),
--     since a run may leave the packet half changed. Checks has the checks of the headers, Lengths
--     update_lengths, Event the second look at the headers and emit_event; the
--     other files in Transparent/ have the theorems. The assumptions on socket buffers are in Kernel/Skb.
--   Formats: src/user/event_format.c and src/user/stats_format.c, and what src/user/bpf_loader.c
--     prints: Decimal has the digits that printf writes, Fields a line of labels and numbers and
--     its reader, Stats and Event the two formatters, Handler handle_crypto_event, Totals
--     ebaf_bpf_print_stats. Sizes, Samples, Lines, Summed and Sums have the theorems on them.
--   Config: src/user/config.c and src/user/config.h. HexKey is ebaf_parse_hex_key, Strtoul the C
--     library's strtoul and parse_uint, Args is ebaf_parse_args.
--   CtxProgram: create_crypto_ctx of src/bpf/crypto_ctx.bpf.c.
--   Loader: src/user/bpf_loader.c and bpf_loader.h. Steps has attach_xdp, attach_tc and the other
--     steps of ebaf_bpf_start, Start that function, ebaf_bpf_stop and ebaf_bpf_poll_events, over a
--     log of the calls that succeeded. Held specifies, as an automaton over such calls, what is
--     held and which call may come next: a program is loaded after its maps are shared, attached
--     after the crypto context was made, and destroyed after it was detached. Asked says what a
--     configuration asks for, in the words of the options. Tracks relates the pointers and the runtime
--     to what is held; Progress, Opening, Context, Attaching, Filtering, Attached and Watching follow
--     the start step by step, and Released puts them together; Found is about the calls on a TC hook
--     that was there before, and on one that was created.
--   Main: src/user/main.c. Its loop reads the clock and the signals from a sequence of rounds;
--     Rounds has the theorems on the loop, Exits those on the whole process.
--   Sender: tools/udp_bench_sender.c. Frames describes the packet that it builds, Accepted what the
--     packet programs make of it, Counts what it prints.
--   Tests: a small kernel that meets the assumptions, and runs on concrete packets and arguments.
--
-- Bytes and machine words are natural numbers. The 64-bit counters wrap around. A packet is the
-- list of its bytes with the index of `data_end`, and each direct access of a program, the loads of
-- the sample and the copies of the IV included, is checked against `data_end`: an access behind it is a fault, an exit that the code does not have and the
-- theorems exclude. Multi-byte fields are read in network order. A call
-- on a socket buffer may move `data_end`. The loops are structural
-- recursions on their number of rounds, which the code bounds, so that the programs always return;
-- the decimal digits of n are written with n + 1 rounds of fuel, which suffice since each round
-- divides by ten. The main loop and the loop of the sender, which wait for the clock, run on fuel,
-- and their theorems say how much is enough. Times are natural numbers.
--
-- Assumed of the kernel: a dynptr of a packet covers it, clone and adjust give the range that is
-- asked for, and a successful cipher call in place changes the designated body, by a function that
-- depends on the context and the IV and that deciphering undoes, and at most the IV besides. The
-- crypto contexts are numbers; hosts with the same key are hosts whose contexts have the same
-- number.
--
-- Assumed of libbpf and the C library: the results of the calls are parameters, which may depend on
-- the calls before. A call that fails has no effect, and sets errno where the code reads it.
-- bpf_tc_attach leaves the program's descriptor in its options, and bpf_tc_detach refuses such
-- options: it releases nothing. bpf_tc_hook_destroy for one direction flushes the filters on it and
-- leaves the qdisc. The other releases, whose results the code does not look at, succeed: those of the
-- XDP program, of the ring buffer and of the object files. snprintf, puts, strtoul and inet_ntop are
-- as documented.
--
-- Not modelled: src/bpf/xdp_probe.bpf.c, which passes every packet;
-- scripts/, tests/ and web/, which are measurements, demonstrations and tests around the
-- program. Within the modelled files, the checks of NULL arguments that no caller passes and the
-- fields of a configuration that was refused are left out. The tail of an event's sample array
-- behind sample_len, which the programs do not write, is no part of an event here.
pub mod Base
pub mod Flow
pub mod Wire
pub mod Kernel
pub mod Machine
pub mod Framed
pub mod Xdp
pub mod TcCrypto
pub mod Transparent
pub mod Formats
pub mod Config
pub mod CtxProgram
pub mod Loader
pub mod Main
pub mod Sender
pub mod Tests
