-- ===== src/Lib.antt =====
-- The multi-UE proxy stands between several OAI UEs and one OAI eNB and gNB, over the nFAPI
-- interface. Its receiving threads put each UE's uplink messages into that UE's queue; the LTE
-- thread, every subframe, and the NR thread, every slot, announce the time to both sides, take
-- the messages of one time out of the queues, sort them by message id, combine each id's messages
-- into one indication, and send that to the base station. In NSA mode the two threads meet once
-- every subframe. Before that, `main` reads the addresses from the command line and starts the
-- proxies, and the base station configures the proxy as its PNF, by the requests of P5.
--
-- Base holds the shared names: native numbers, lists indexed by them, Boolean tests, `Outcome` for
-- calls that may stop the program (assert, abort, exit), integers, and `|` of words. Queue is
-- src/queue.c: the ring of 512 pointers. Queue.Ring says which list a ring holds, Queue.Fifo and
-- Queue.Matching are about the operations, Queue.Trace about sequences of calls. Sfn is the frame
-- arithmetic of src/nfapi_pnf.c (get_sf_delta, get_slot_delta, sfn_sf_add, sfn_slot_add,
-- sfn_sf_counter, sfn_slot_counter), with Sfn.Cycle on the wrap-around. Message is the reading of
-- ids and times (get_message_id, get_sfnsf, get_sfnslot there, and their like in src/nfapiutils.c).
-- Uplink is oai_subframe_handle_msg_from_ue, oai_slot_handle_msg_from_ue, dequeue_ue_msgs and
-- dequeue_ue_slot_msgs. Batch is the loop of oai_subframe_aggregate_messages and
-- oai_slot_aggregate_messages; Aggregate is what they call for one message id, down to the
-- oai_nfapi_* senders. Task puts these together as a round of oai_subframe_task and oai_slot_task,
-- all of src/nfapi_pnf.c, with the sleeps at the end of a round in Task.Pacing, and Barrier is
-- their meeting over sf_slot_tick, with its broadcast and its condition variable. Run is the rounds
-- of either thread together with the messages that come in between, as sequences of whole calls.
-- Proxy is the receiving threads of src/lte_proxy.cc and src/nr_proxy.cc, and what these send to
-- the UEs; Proxy.Setup is their constructors, configure, init_oai_socket and start, where the
-- outcomes of the system calls are given and `none` stands for an index past the end of an array
-- (the tables of sockets hold 100 UEs, those of queues 64). Start is src/proxy.cc: the arguments of
-- main, the addresses they stand for and the proxies it starts. Pnf is the handlers of the P4 and
-- P5 requests in src/nfapi_pnf.c, for LTE (Pnf.Lte), for NR (Pnf.Nr) and for both (Pnf.P4,
-- Pnf.Common), as functions from a state and a request to a state and a list of effects; Pnf.Tables
-- is what the P7 request handlers keep for the UEs. Util is the dumps of messages, the names of
-- message ids and the sockets of P5 and of the PHYs, all of src/nfapiutils.c.
--
-- Numbers are natural numbers; the words of the source keep their wrap-around (`word16`, the counts
-- of PDUs), and lists of bytes stand for buffers. Where LTE and NR have the same code over
-- different words, it is written once, over a record of what differs (`Link`, `Kind`).
-- Fuel: emptying a queue takes 513 rounds at most, since a queue holds 512 items; the
-- aggregation loop takes one round more than there are messages; closing a gap in the ring takes
-- 512 steps. Running out of fuel counts as stopping the program.
--
-- The nFAPI library (open-nFAPI) is vendored and not modelled: `pull16`, the packing and unpacking
-- of messages, and what `nfapi_pnf_p7_config_create` gives are parameters, as are `inet_pton`,
-- `inet_addr` and `inet_ntoa`. The static buffer of `inet_ntoa`, which glibc keeps for each thread,
-- is part of a side's state, as far as the side's own handlers write it: the library's calls of
-- `inet_ntoa` are left out. Left out are also trace output, with the loops that only look for
-- something to trace, callback pointers, the TLVs of P5 that are only counted (and num_tlv of the
-- NR PARAM response), thread creation and the reading of the clock. Not modelled are the P7
-- handlers that only trace (ul_tti, ul_config, hi_dci0), the scheduler log, the backtrace of a
-- crash and the removal of log files. A failing mutex call is an argument of the queue's
-- operations; elsewhere the mutexes lock.
pub mod Base
pub mod Queue
pub mod Sfn
pub mod Message
pub mod Uplink
pub mod Batch
pub mod Aggregate
pub mod Task
pub mod Barrier
pub mod Proxy
pub mod Start
pub mod Pnf
pub mod Run
pub mod Util
