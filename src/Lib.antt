-- ===== src/Lib.antt =====
-- idemIP, a TCP/IP stack in C: its byte and checksum kernel, ARP, address conflict detection,
-- link-local addresses, the ARP table, IPv4 address kinds and routes, TCP headers, options and input,
-- the clock and the deadline list.
--
-- A unit of the stack keeps no storage. A caller hands an entry a borrow, a span of bytes that holds
-- the operands, the context and the results, and the entry reports OK, BUSY (the same call makes
-- progress later) or ERR. Here an entry is a function from a borrow to a borrow: `Borrow` is the
-- results `io` and the context `ctx`, and the operands that the caller writes for a call are its
-- arguments. An operand that is a pointer is an `Option`, `none` for NULL. The test of an entry for a
-- null borrow returns before there is any state, and is not modelled.
--
-- The files, by the code that they model (paths from the repository's root):
-- - Base, with Base/Tests, Base/Lists, Base/Words and Base/Bits: tests on numbers, C arrays, unsigned
--   words with their wraps, and lemmas on the native bit operations.
-- - Config: `IdemIpStatus` and the ACD and AutoIP numbers of src/idemip_config.h at the values that
--   it prints.
-- - Endian: src/endian.c. `rd16 p i` is `idemip_rd16(p + i)`, and so on. Endian/RoundTrip and
--   Endian/Frame: what a write leaves to be read.
-- - Host: a build's word, src/common.h, and a word loaded by `memcpy` in either byte order.
-- - Span: src/common.c. `bytes_zero` and `bytes_eq` are `span_zero` and `span_eq`.
-- - Checksum: src/checksum.c. `accum`, `final`, `over` and `valid` are the `cksum_` functions; `Route`
--   is what IDEMIP_CKSUM_WORD and IDEMIP_CKSUM_WORD_SWAP choose.
-- - Arp/Packet: src/arp/arp.c, one function per `arp_` function.
-- - Acd: src/acd/acd.c. `clear`, `start`, `stop`, `arp_in` and `tick` are the entries, `fire`,
--   `receive`, `claim`, `cease`, `abandon`, `defend` and the others its static functions.
-- - AutoIp: src/autoip/autoip.c. `clear`, `start`, `conflict`, `bind` (`idemip_autoip_bound`), `stop`
--   and `tick` are the entries, `draw`, `select` and `advance` its static functions.
-- - Tcp: src/tcp/tcp.c, the readers, the writers and the checksum; Tcp/Walk: the option walk.
-- - Pseudo: src/ip/pseudo.c with src/ip/pseudo_v4.c and src/ip/pseudo_v6.c, or the two files
--   that a build has in place of one.
-- - Clock: src/clock.c and src/ms.c.
-- - Timeouts: src/core/timeouts.c. `Links` is the table and the head of the list that it threads;
--   `clear`, `arm`, `cancel`, `tick` and `expire` are the entries.
-- - Ip4Addr: src/ip/ip4_addr.c and src/ip/ip4_addr.h, and the mask functions of src/ip/ipv4.c.
--   Ip4Addr/Mask: the masks of a prefix.
-- - Ip4Route: src/ip/ip4_route.c. `best` is `ip4_route_best`, its passes are `longest`, `has_tos` and
--   `pick`; Ip4Route/Entries has the entries, by their names. Ip4Route/Passes and Ip4Route/Choice: the
--   choice of a row; Ip4Route/Prefix: the match of one; Ip4Route/Entries/Rows and Invariant: what holds
--   of every row; Ip4Route/Entries/Lookup: what a lookup reports.
-- - ArpTable: src/arp/arp_table.c, its static functions without the prefix `arp_`, on the rows and the
--   frames held for them; ArpTable/Entries has the entries. ArpTable/Learn: what `arp_learn` writes;
--   ArpTable/Rows: the sweep; ArpTable/Entries/Find and Tick: what the entries answer.
-- - TcpIn: src/tcp/tcp_in.c, the tests of sequence numbers and the replies; TcpIn/Checks: the
--   checks of RFC 9293 sec 3.10.7.4 in their order, and the time stamp test ahead of them;
--   TcpIn/Entries: the entries, but for `parse` in TcpIn/Parse. TcpIn/Parse/Layout and
--   TcpIn/Parse/Options: a header and its options by the layout of the RFC; TcpIn/Parse/Sent:
--   reading what a sender summed. TcpIn/Moves, with Moves/Checks: the state diagram; TcpIn/Bounds,
--   with Bounds/Steps: what a segment may move and deliver; TcpIn/Blind: RFC 5961;
--   TcpIn/Handshake, with Handshake/Opening: two ends that meet; TcpIn/Window: the acceptance
--   test.
-- - Base/Search: the first index with a property, for the loops that stop at a row.
-- A file Tests has a component at concrete inputs.
--
-- How the parts meet: ACD tells its own packets by Arp.Packet and Span.bytes_eq; AutoIp hands the
-- address that it draws to the caller, who starts ACD with it, and takes a conflict back; TCP sums
-- its pseudo-header and segment by Checksum.accum; ARP and TCP read and write their fields by
-- Endian. The ARP table reads what comes in by Arp.Packet, TcpIn reads a segment by Tcp, Pseudo
-- and Checksum, and the route table checks a mask by Ip4Addr's two functions.
--
-- Conventions. Numbers are natural, and every cast, sum and difference of an unsigned type is cut
-- to its width. A span is a list of octets, and a pointer into it is the list and an offset, or
-- the list from there on (`drop`). An octet past a span reads as 0 and a write there does nothing;
-- a theorem that depends on a place says that it lies inside. A hardware address in a context is
-- the octets that were pointed to when it was handed over. The word width, the byte order, the
-- checksum's route and the length of the deadline, route and ARP tables are parameters: a table is
-- a list, and its length stands for the count that the build has. The mark that `clear` leaves is
-- a Boolean in Ip4Route, ArpTable and TcpIn, and TcpIn's act and flag bits are records of
-- Booleans.
--
-- Loops. The loops over a fixed count, over octets and over slots recurse on what is left. The
-- word loop of Checksum has one round per octet, and its pair loop and the loops of Span one more,
-- since a round takes at least one octet; the walks of `link` and `unlink` have one round more
-- than the table has slots, since a list without repetition has no more links. The walks of
-- ArpTable have one round for each frame that can be held. The loop of `parse` over the options
-- has one round more than the options have octets. The theorems on their results hold with this
-- fuel.
--
-- Not modelled: the other protocol units (TCP's blocks and output, the rest of IPv4 and IPv6, UDP,
-- ICMP, IGMP, MLD, neighbor discovery, DHCP, DNS), dispatch and statistics, interfaces and device
-- drivers, whose registers and buffers are outside the code; time determinism, which spends
-- wall-clock time; and the layout assertions, which the compiler checks.
pub mod Base
pub mod Config
pub mod Endian
pub mod Host
pub mod Span
pub mod Checksum
pub mod Arp
pub mod ArpTable
pub mod Acd
pub mod AutoIp
pub mod Pseudo
pub mod Tcp
pub mod TcpIn
pub mod Clock
pub mod Timeouts
pub mod Ip4Addr
pub mod Ip4Route
