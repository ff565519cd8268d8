-- ===== src/Lib.antt =====
-- The forwarder of NDN-BIER: Named Data Networking with stateless multicast by bit-strings.
--
-- Parts. A forwarding thread checks an Interest, finds or makes its PIT entry, asks the Content
-- Store, looks up the Prefix Egress Table (PET) for egress routers and local faces and the FIB for
-- the next hops to those routers, and hands the Interest to a strategy; the first router puts a
-- bit-string on an Interest for several egress routers. The BIER strategy replicates it by the Bit
-- Index Forwarding Table (BIFT): bit-strings stand for sets of routers, and the table has the face
-- and the mask of each router. Copies leave by the outgoing pipeline, which puts an out-record
-- into the PIT entry; Data goes back along the in-records.
--
-- Files, and the code that they are about:
--   Prelude: shared names, tests on numbers, lists, finite maps, bits of a number.
--   Bier/Bits: the bit-string helpers of ndnd/fw/fw/bier.go (BierGetBit, BierSetBit, BierClearBit,
--     BierAnd, BierAndNot, BierIsZero); Sets relates them to sets.
--   Bier/Bift: BiftState of ndnd/fw/fw/bier.go, one function for each method; Groups and Masks are
--     about RebuildFbm, Neighbors about GetNeighborEntries, Refresh about BuildFromFibPet,
--     Invariant and Runs about all of them.
--   Table/NextHops: the next hops of ndnd/fw/table/fib-strategy.go and their order by cost.
--   Table/PitEntry: records of a PIT entry, ndnd/fw/table/pit-cs.go.
--   Table/DeadNonceList, Table/NetworkRegion, Table/CsLru: ndnd/fw/table/dead-nonce-list.go,
--     network-region.go and cs-lru.go. Order, Moves and Runs of CsLru are about the queue as a
--     list of indices, Agreement of DeadNonceList about its two parts.
--   Table/NameTree: the tree of names that the PET, the FIB, the RIB, the PIT and the Content
--     Store have each for itself in ndnd/fw/table (findLongestPrefixEntryEnc,
--     findExactMatchEntryEnc, fillTreeToPrefixEnc, pruneIfEmpty, cleanUpFace, walk), once for any
--     payload; View says what a tree holds under a sequence of keys, Longest what a search upwards
--     finds, Exact is about nodes at their depths, Walk about visiting all nodes, Tidy about
--     pruning.
--   Table/Pet: PrefixEgressTable of ndnd/fw/table/pet.go; Refinement is about one operation,
--     Invariant about the entries and nodes it leaves, Runs about sequences of operations.
--   Table/FibEntry, Table/FibTree, Table/FibHashTable: the FIB and strategy table of
--     ndnd/fw/table/fib-strategy-tree.go and fib-strategy-hashtable.go. Lookups of the tree, and
--     Runs and Refinement of the hash table, relate them to a map from names, Lookups of the hash
--     table is about its longest matches, NameSets and Invariant are about the virtual names of
--     the hash table, Hops is about lists of next hops, Agreement about both tables.
--   Table/Rib: RibTable of ndnd/fw/table/rib.go; Counting and Least say which routes count for an
--     entry and which cost is the least, Costs and Updates are about updateNexthopsEnc, Changes
--     about one list of routes, Routes about the routes that operations leave in the table.
--   Table/PitCs: PitCsTree of ndnd/fw/table/pit-cs-tree.go, in Pit and Cs; Matches and Found are
--     about findInterestPrefixMatchByNameEnc, Runs about sequences of calls.
--   Fw/Packet: packets and faces, ndnd/fw/defn and ndnd/fw/dispatch.
--   Fw/Outgoing: processOutgoingInterest and processOutgoingData of ndnd/fw/fw/thread.go,
--     SendInterest and SendData of ndnd/fw/fw/strategy.go; Sends, Records, Copies and Packets say
--     what leaves and what the PIT entry keeps.
--   Fw/Lookup, Fw/Finalize, Fw/IncomingData: twoPhaseLookup, finalizeInterest, and the part of
--     processIncomingData that deals with matching PIT entries, of ndnd/fw/fw/thread.go.
--   Fw/IncomingInterest: processIncomingInterest of ndnd/fw/fw/thread.go. Check comes before the
--     PIT, Hops finds the next hops, Forward uses them, Process is the whole; Guards is about
--     Check, Filters about Hops, BitString about the first BIER router.
--   Fw/Dispatch: HashNameToFwThread and HashNameToAllPrefixFwThreads of ndnd/fw/fw/thread.go.
--   Fw/DataPipeline: the whole of processIncomingData of ndnd/fw/fw/thread.go.
--   Fw/Replication: bierReplicate of ndnd/fw/fw/bier_strategy.go over any sending function; Plan
--     is the list of copies, Delivery and Served say which bits they carry, Packets what the
--     packets are, Routed both.
--   Fw/Strategy: AfterReceiveInterest, AfterReceiveData and AfterContentStoreHit of
--     ndnd/fw/fw/bier_strategy.go, multicast.go and bestroute.go.
--   Dv/Rib: routes by destination and hop, ndnd/dv/table/rib.go; Selection and Order are about
--     refresh, Invariant and Runs about all operations.
--   Dv/Fib: the updates of ndnd/dv/table/fib.go and their commands; Merge is about the entries,
--     Replay about the commands, Mirror about both.
--   Encoding: names and numbers of ndnd/std/encoding. Name has equality, prefixes and the
--     canonical order, Numbers and BigEndian the encodings of numbers, Components what a WireView
--     reads.
--
-- Modelling. State is passed explicitly: the BIFT is a record of two maps, and a forwarding
-- thread's outgoing side is the PIT entry at hand, the counters and the list of packets sent. A Go
-- map is an association list in the order in which a range over it runs, which Go leaves open, and
-- statements are about every such list. Every method of the BIFT that changes it holds its lock
-- for its whole body, so each is one step; BuildFromFibPet is the steps of one caller that no
-- other one interrupts. Machine integers that the code only compares are plain numbers; the
-- encodings keep their widths. Hashes and the time are parameters, and so are, in a forwarding
-- thread, the lookups of the PET and of the FIB: threads share those tables, which Table/Pet,
-- Table/FibTree and Table/FibHashTable model. All definitions are structural recursions but two
-- loops, which run on fuel: that of ReadName has one more than the bytes that are left, since a
-- component takes at least one, and that of walk has the number of nodes, since each round visits
-- one. A node is found by a key of its component: the hash in most tables, the component itself in
-- the tree of the FIB. Hashes may collide, and the theorems about one table speak of keys; only
-- where the two tables of the FIB are compared is the hash of names assumed to tell apart the
-- names in use, those of the calls and the prefixes of the name looked up. A pointer to an entry
-- in a tree is its name, with the token of a PIT entry.
--
-- Not modelled: sockets, link services, goroutines and queues, management, configuration, logging,
-- security and the client library. Of the tables of the forwarder, the queue of PIT expirations,
-- the pools of objects and the registration of readvertisers are not modelled; a new PIT token
-- wraps at 32 bits, and the counter behind it is taken not to wrap.
pub mod Prelude
pub mod Encoding
pub mod Table
pub mod Bier
pub mod Fw
pub mod Dv
mod Tests
