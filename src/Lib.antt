-- ===== src/Lib.antt =====
-- FIDe drops traffic whose entropy stands out. An XDP program counts packets by source address and
-- by interval. In fully_in-kernel it also closes the interval itself: it computes an entropy for
-- each source with the arithmetic of fixed-point.h and resets the counts. In user+ebpf it only
-- counts and filters, and a program in user space, xdp_loader.c, loads it, and ends an interval
-- once a second: it walks over the map of the sources, computes the entropies and resets the
-- counts.
--
-- Modules, and the code that each is about (paths from the repository's root):
--   FixedPoint      fixed-point.h (the same text is fully_in-kernel/main/fixed-point.h): struct
--                   fixed_point, count_zero_64, count_zero_32, check_bit, add, subtract, multiply,
--                   divide, calc_log, abs_val. Zeros, Align, Fit, Sum, Quotient, Product, Log and
--                   Sign hold the proofs about one function each.
--   LogTable        the table of calc_log.
--   Packet          loads from a packet's bytes, and the byte order of the host.
--   Kernel          fully_in-kernel/main/xdp_prog_kern.c. Types: the structs, maps and static
--                   variables. Entropy: calc_entropy and detection. Interval: the counting, the
--                   time stamp and the end of an interval. Handler: xdp_filter_func. Verdicts,
--                   Effects, Counting, Balance, Conservation, Timing and Overflow hold the proofs.
--                   Racing: the steps on the packet count and int_bits, by several processors at once,
--                   with those of the end of an interval.
--                   History: what is kept of each source.
--   History         the history of packets and ends of intervals: the abstract view of the counts that
--                   Kernel.History and Loader.History hold the two versions against.
--   HashMap         a BPF hash table, as both versions of main/xdp_prog_kern.c use it. Walk: the order
--                   of its keys, as xdp_loader.c walks over them. Laws: lookups after changes.
--   Split           user+ebpf/main/xdp_prog_kern.c: the same filter and counts, whose intervals a
--                   program in user space ends. Counting: what it answers and counts. Kernel: it
--                   against the in-kernel program. Sources: what it leaves of the list of sources.
--                   Interleaving: packets that several processors count at once, as steps on the
--                   maps; Bound, Listed, Sequential and Lost hold the proofs about their orders.
--   Loader          user+ebpf/main/xdp_loader.c: calculate_ent over an interface to the map
--                   (MapCalls, MapLaws) and to floating point (Floats). Walk: its loops. Interval:
--                   the whole of it. Memory: the interface met by the hash table. Together: packets
--                   of Split and ends of intervals as steps on the same maps. History: what is kept
--                   of each source. Reported: the number that is reported, against the packets.
--                   Rounds: the loop of main. Races: a packet between a read and a write; Between:
--                   any packets there; Racing: packets between all calls of the loop that resets
--                   the sources. Start: main up to its loop. Startup: when the loop is entered.
--                   Trie: check_trie, with what it drains of a map in Drain. Flows:
--                   calculate_entropy and calculate_entropy_csv, which share the comparison of two
--                   intervals; Counts and Calls hold the proofs.
--   Parsing         user+ebpf/main/common/parsing_helpers.h (the same text is in
--                   fully_in-kernel/common): the parsers of headers. Vlan, Lengths and Cursor hold
--                   the proofs about tags, header lengths and sequences of parsers.
--   Rewriting       user+ebpf/main/common/rewrite_helpers.h (the same text is in
--                   fully_in-kernel/common): vlan_tag_push, vlan_tag_pop and the swaps. Vlan and
--                   Swaps hold the proofs.
--   Stats           user+ebpf/main/common/xdp_stats_kern.h: xdp_stats_record_action.
--   Params          user+ebpf/main/common/common_params.c and common_defines.h: the options.
--                   Modes: the flags. Names: what is stored of names. Table: the option table.
--   Attach          user+ebpf/main/common/common_user_bpf_xdp.c. Link: xdp_link_attach and
--                   xdp_link_detach. Load: the loading of an object file, its maps and the
--                   attaching. Maps: check_map_fd_info and action2str.
--   Pinned          user+ebpf/main/common/common_libbpf.c (the same text is in
--                   fully_in-kernel/common): bpf_prog_load_xattr_maps. Entries: what it leaves.
--   Options         fully_in-kernel/common/common_params.c and common_defines.h: the options there.
--                   Last: the last option of a kind. Binding: the copy flags.
--   Multiprog       fully_in-kernel/common/common_user_bpf_xdp.c over libxdp (XdpCalls). Attaching:
--                   load_bpf_and_xdp_attach. Detaching: do_unload.
--   Prototype       fully_in-kernel/main/dynamic-fix.c: divide and calc_log as they were first.
--                   Division and Logarithm hold the proofs.
--   Base            tests, lists, machine words, bit laws, powers of two.
--
-- How the code is modelled. A w-bit integer is its bit pattern, a number below 2 ^ w; arithmetic
-- wraps, as the two's-complement instructions do. A shift by a count that is not below the width
-- and a division by zero are undefined in C: a function in which they can occur returns an
-- option, and none stands for them. A struct changed through a pointer is returned beside the
-- result. A packet is the list of its bytes from data to data_end; a read past the end is none
-- as well. The map logger is a list of entries in the order in which a walk visits them, with
-- its size limit; the blacklist answers lookups and is never written by the program; the one-
-- entry maps are options, so that the branches on a failed lookup are there. bpf_redirect_map
-- answers by the presence of the port. Time is what bpf_ktime_get_ns returned, an argument. The
-- sections under the spin lock are run one after the other, in any order. The recursions are
-- structural: no fuel is used but in bit_length, whose fuel is the number itself. The loop over
-- VLAN tags runs on its bound of two rounds. What the code takes from libbpf, the kernel and the
-- C library is a parameter: the calls on a device (LinkCalls, whose documented behaviour is
-- LinkLaws) and on object files (ObjectCalls), bpf_xdp_adjust_head, if_nametoindex, atoi, and
-- what getopt_long finds. The documented behaviour of the calls on maps is MapLaws, of libxdp
-- AttachLaws and DetachLaws, of the calls of main SystemLaws. Of floating point nothing is
-- assumed. A C buffer that was never written is none, and so is a use of it. The walk of
-- calculate_ent runs on its own bound of 100000 rounds. Memory from malloc is an argument, and
-- so is the conversion to int, which C adds before abs. calculate_entropy, calculate_entropy_csv
-- and check_trie, which nothing calls, read maps of another layout than those of the XDP
-- program: TrieLaws and ArrayLaws are what such maps are documented to do. Where several
-- processors count packets at once, a read, a write, a call on a map and a lock_xadd are one step
-- each. There an entry stands in an element of the map, and a pointer from a lookup is to the
-- element: an insertion takes an element that no entry stands in, so an older pointer can be to no
-- entry or to that of another source.
--
-- Not modelled: what is printed, but for the reads it makes in check_trie; the conversions from
-- and to floats and the main of dynamic-fix.c; the vendored libbpf; the copies of Linux headers;
-- the generated configuration.
mod Base
pub mod LogTable
pub mod FixedPoint
pub mod Packet
pub mod Parsing
pub mod Params
pub mod Options
pub mod Stats
pub mod Rewriting
pub mod Attach
pub mod HashMap
pub mod History
pub mod Kernel
pub mod Split
pub mod Loader
pub mod Pinned
pub mod Multiprog
pub mod Prototype
