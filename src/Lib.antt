-- ===== src/Lib.antt =====
-- The network stack of lpc17xx-network: its data structures, its protocols from Ethernet to TCP,
-- and the scheduler that runs them.
--
-- The Ethernet controller (emac.c) gathers fragments into frames and injects them as packets
-- (protocol.c). A receive task takes each packet through the registered handlers, from Ethernet
-- (ethernet.c) to ARP (arp.c) or IPv4 (ipv4.c) and on to UDP (udp.c) or TCP (tcp.c), until one
-- marks it to be dropped. Handlers send by the queues of ipv4.c and ethernet.c, and wake
-- processes that wait (wait.c, process.c). Lists (list.c), circular buffers (cbuf.c) and byte
-- swaps (byteswap.c) serve all of them; the timer tick runs arp_tick and tcp_tick.
--
-- Files:
--   ByteSwap      byteswap.c: the swaps are functions of the word that the pointer leads to.
--   Cbuf          cbuf.c: pointers into the block are offsets; the block is a list of bytes.
--   LinkedList    list.c and list.h: nodes are addresses, the links two functions of addresses.
--   Checksum      the checksum loops of ipv4.c and tcp.c.
--   Packet        struct packet_t of protocol.h, packet_create and packet_destroy.
--   Protocol      protocol.c: the table of handlers, the loop of rx_task over one packet, and rx_task
--                 until the queue is empty.
--   Ethernet, Ipv4, Arp, Udp   the files of these names.
--   Tcp           tcp.h and the headers of tcp.c; Tcp/Transmit is tcp_tx, Tcp/Input and Tcp/Receive
--                 are tcp_rx_packet, Tcp/Calls the calls that a program makes, Tcp/Tick tcp_tick;
--                 Tcp/Exchange has two hosts that send each other segments; Tcp/LastAck follows a connection after its tcp_close, and
--                 Tcp/Walk is the loop of tcp_tick over the pointers in memory.
--   Process       process.c and wait.c: the queues are lists of process addresses; Process/Spawn is
--                 create_process and process_init, Process/Links the same queues as pointers, with
--                 the operations in any order in Steps, the turns that follow from it in Fair, and
--                 an interrupt in a wait in Race.
--   Wait          wait_for_volatile_condition of wait.h, in any order with what changes the
--                 conditions; Wait/Connect is its use in tcp_connect.
--   Tick          tick.c: the timer, its interrupt, and the functions registered with it.
--   Emac          emac.c: Emac/Setup is emac_init with its reads of the PHY, Emac/Ring the loop of
--                 irq_enet over the receive descriptors, Emac/Gather its two copies, Emac/Transmit
--                 the descriptors of emac_xmit_frame.
--   Start         init.c: the memory that _start prepares, and call_initcalls; Start/Clock is
--                 init_clocking, as the accesses that it makes to the registers.
--   Irq           irq.h: PRIMASK and its nesting.
--   Stack         the five handlers registered together, over the state that they share; Stack/Boot
--                 is their registration by the initcalls, Stack/Reset the whole of _start,
--                 Stack/Delivery and Stack/Padding take a frame with a TCP segment through them,
--                 Stack/Sending builds such a frame, Stack/Backwards has two of them in the queue,
--                 Stack/Datagrams is what the transmit queues make of a datagram, Stack/Listening
--                 sends one of UDP to the listeners, and Stack/Asking takes a frame of ARP.
--   Main          the program of main.c, and the two ways in which its call can end.
--   Effect        what a handler asks of the layers below: sends and wake-ups, as values in order.
--   Base          tests on numbers, lists, words, structures in memory; Base/Run has the results of
--                 code that can fault or stop; Base/Bits has laws of the bit operations.
--   Tests         the theorems at concrete inputs.
--
-- A definition has the name of its C function; a function that is modelled in parts has a
-- definition for each part. A call that waits for a condition is given as the part before the
-- wait, the condition, and the part after it. Words are natural numbers with the wrap-around
-- written out; structures that are read from a frame fault where the frame ends. An endless loop
-- of the code is the result `halted`.
--
-- Bounds and fuel: the folding loop of the checksum has three rounds, since the first leaves at
-- most 17 bits of a 32-bit sum, the second leaves 16, and the third only tests; list_for_each and
-- list_for_each_safe have one round for each node and one to see the head again; the loop of
-- tcp_rx_data has one for each byte that is asked for, since every wait brings one; the loop of
-- rx_task has four rounds, since the layers are Ethernet, IPv4 or ARP, and UDP or TCP, and a
-- packet that no layer takes is dropped; the loop of irq_enet has one for each fragment that
-- comes in while it runs and one to find none left; the loops of _start have one for each byte
-- and one to see the end. A wait for a status bit of the hardware has one round for each read of
-- the register, and the answers to the reads are arguments.
--
-- Not modelled: the allocator (memory.c, macros.h), which comes from another project and whose
-- blocks and addresses are arguments here, and which stops the system when it has no memory, so
-- that no failure of it is seen by its callers; the register map (lpc17xx.h), whose registers are
-- fields of the states of the modules that write them; the context switch and the vectors in
-- assembly; the endless waits at the end of _start and of main; and, in emac.c, the write that
-- clears the receive interrupt and the wait for the controller after a frame is handed to it. The
-- interrupt mask is modelled where a function leaves it changed. Each operation runs as a whole,
-- as it does with interrupts masked; Wait and Process/Links/Steps order such operations in every
-- way, with the switch of a waiting process as a step of its own, and other interleavings are not
-- modelled. The segments of Tcp/Exchange are neither lost nor reordered, since the code
-- retransmits nothing. Where a result says so, they arrive without the padding that the
-- controller puts behind short frames and that ipv4.c passes on; Stack/Padding and
-- Tcp/Exchange/Transfer have segments with it.
pub mod Base
pub mod ByteSwap
pub mod Cbuf
pub mod LinkedList
pub mod Checksum
pub mod Effect
pub mod Packet
pub mod Ethernet
pub mod Ipv4
pub mod Tcp
pub mod Udp
pub mod Arp
pub mod Protocol
pub mod Process
pub mod Emac
pub mod Wait
pub mod Start
pub mod Irq
pub mod Tick
pub mod Stack
pub mod Main
pub mod Tests
