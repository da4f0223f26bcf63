-- ===== src/Lib.antt =====
-- infiniband-diags: the library that encodes and exchanges InfiniBand management datagrams, the
-- library that discovers a fabric, and the diagnostic programs that use them.
--
-- The parts. libibmad names the fields of a datagram by a table, reads and writes them, encodes a
-- request into a datagram, and exchanges it with another port: it sends, waits for the reply with
-- the same transaction number, repeats, and follows redirections. libibnetdisc keeps a bounded
-- number of such requests on the wire at once, walks a fabric along directed routes, and records
-- nodes, ports and the links between them. The programs in src/ call the two libraries and print.
--
-- Where they are.
--   Base          the names and lemmas that all share: tests on numbers, C's int, lists, bits.
--   Mad.Field     libibmad/src/fields.c, _set_field and _get_field. A buffer is a function from
--                 offsets to bytes; the byte order is the source's 3 ^ idx.
--   Mad.Table     fields.c, ib_mad_f with all its entries, and mad_get_field, mad_set_field.
--   Mad.Wide      fields.c, the 64-bit and array accessors, mad_encode_field, mad_decode_field.
--   Mad.Numbers, Mad.Types   libibmad/include/infiniband/mad.h, the numbers of the fields that the
--                 code names, and the records of paths, ports and requests.
--   Mad.Encode    libibmad/src/mad.c, mad_trid and mad_encode, one function for each word of the
--                 source's comments.
--   Mad.Packet    mad.c, mad_build_pkt.
--   Mad.Rpc       libibmad/src/rpc.c, _do_madrpc: `receive` is its inner loop, `attempts` the outer.
--   Mad.Call      rpc.c, redirect_port and mad_rpc, whose loop is `rpc_loop`.
--   Mad.Rmpp      rpc.c, mad_rpc_rmpp.
--   Mad.Register  libibmad/src/register.c, and rpc.c from mad_rpc_open_port on: the agents of a port,
--                 its opening and its closing. A class that mad_register_server_via is given is an
--                 index of the table, whose bound that function does not check.
--   Mad.Serve     libibmad/src/serv.c, mad_send_via and mad_respond_via.
--   Mad.Smp       libibmad/src/smp.c, the calls of subnet management.
--   Mad.Gmp       libibmad/src/gs.c, cc.c, vendor.c and bm.c, the other management classes.
--   Mad.Sa        libibmad/src/sa.c, requests to the subnet administration.
--   Mad.Resolve   libibmad/src/resolve.c, all but ib_resolve_portid_str_via. A field that is decoded
--                 into one byte is its low byte, as on a little endian host.
--   Mad.RouteText   libibmad/src/portid.c, str2drpath, drpath2str and portid2portnum. The array of
--                 hops is taken as long enough; portid2portnum gives 0 below it.
--   NetDisc.Engine, NetDisc.Query   libibnetdisc/src/query_smp.c: the queue of SMPs, linked
--                 through a heap, the wire, issuing, and the loop over the replies.
--   NetDisc.Startup   query_smp.c, smp_engine_init.
--   NetDisc.Path  libibnetdisc/src/ibnetdisc.c, add_port_to_dpath, extend_dpath, retract_dpath.
--   NetDisc.Ports ibnetdisc.c, link_ports on the remoteport fields of all ports.
--   NetDisc.Hash  ibnetdisc.c, the hash table of nodes by GUID.
--   NetDisc.Fabric   ibnetdisc.c and include/infiniband/ibnetdisc.h, the nodes and ports of a fabric on
--                 a heap (NetDisc.Fabric.Heap), create_node, the tables, and what the handlers store.
--                 Allocation fails from `room` addresses on.
--   NetDisc.Discovery   ibnetdisc.c, the callbacks recv_*, as callbacks of the engine, and the part of
--                 ibnd_discover_fabric from its first query on. NetDisc.Discovery.Routes has the tests
--                 that decide which ports are followed. Where the source would access a slot behind
--                 the array of a node's ports, or read through a null ports[0], a handler marks the
--                 fabric as `faulted` and fails, so the loop over the replies ends there.
--   NetDisc.Lookup   ibnetdisc.c, the port or node at the end of a route or with a GUID, and the
--                 iterators, as lists. Its loops over chains take fuel as the others do; an access
--                 behind an array or through a null pointer is a result of its own.
--   NetDisc.Cache   libibnetdisc/src/ibnetdisc_cache.c, the file of a fabric as a list of bytes: its
--                 header and its entries, written here and read in NetDisc.Cache.Reading.
--                 NetDisc.Cache.Words has the numbers.
--   NetDisc.Chassis   libibnetdisc/src/chassis.c, the kinds of Voltaire boards, the tables of slots
--                 in NetDisc.Chassis.Slots, and get_sfb_slot, get_slb_slot, get_router_slot. An
--                 index behind the end of a table, which C leaves undefined, reads 0.
--   NetDisc.ChassisGuid   chassis.c, get_chassisguid and the tests of Cisco and Xsigo GUIDs.
--   NetDisc.Portmap   chassis.c, voltaire_portmap and its tables.
-- The tests and instances stand in Mad.Tests, Mad.RpcTests, Mad.ServeTests, Mad.QueryTests,
-- Mad.RouteTests, NetDisc.Tests, NetDisc.FabricTests, NetDisc.ChassisTests,
-- NetDisc.DiscoveryTests, NetDisc.CacheTests and NetDisc.StartupTests.
--
-- Code that is not in the repository is a parameter. `Umad` stands for libibumad: its calls change
-- a world, and `IsFinite` states that finitely many datagrams are still to come. `System` stands for
-- the calls of libibumad that open ports, the allocator and errno, and `IsSystem` states that errno
-- keeps what is stored in it, and that closing and freeing do not clear it. `QMap` stands for
-- complib's cl_qmap, of which `IsQMap` states how its calls change its count. `seed` stands for the
-- value of random(), and `IbTypes` for the numbers of OpenSM's ib_types.h. The callbacks of the engine
-- are those of its caller; NetDisc.Discovery has those of the discovery.
--
-- Integers. Numbers are natural; conversions to 8, 16, 32 and 64 bits are written out, and C's int
-- is ℤ where its sign is used. Pointers are addresses, a heap is a function of them, and addresses
-- are not given twice.
--
-- Fuel. The loops that wait for datagrams, walk a chain or serve a queue take a bound on their
-- turns, and running out of it is a result of its own. Enough are: one turn more than the datagrams
-- to come, for the loops over replies; one more than the SMPs allocated, for the queue, which the
-- engine takes itself; one more than the longest chain, for a walk of the hash table.
--
-- What is not modelled: the printing of values and debug output; errno, except where it is the
-- return and in the opening of ports; the copy that madrpc_save_mad asks for; madrpc_init,
-- mad_receive_via, ib_resolve_portid_str_via and portid2str; the frame of ibnd_discover_fabric, the
-- destruction of a fabric and of an engine, and ibnd_find_port_lid; the rest of chassis.c, which
-- groups nodes into chassis; the opening of the cache file, and the rebuilding of a fabric from its
-- entries; the programs, scripts and documents. The first three have no effect on what the modelled
-- functions return; the others are separate functions that call the modelled ones.
pub mod Base
pub mod Mad
pub mod NetDisc
