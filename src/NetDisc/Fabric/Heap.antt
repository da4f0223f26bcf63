-- ===== src/NetDisc/Fabric/Heap.antt =====
-- libibnetdisc/include/infiniband/ibnetdisc.h and src/internal.h: nodes, ports and the fabric that
-- holds them.
use infiniband_diags.Base.{ℕ, Bool, Option}
use infiniband_diags.Mad.Field.{Buf}
use infiniband_diags.Mad.Types.{PortId}
use infiniband_diags.NetDisc.Path.{Scan}
use infiniband_diags.NetDisc.Ports.{Remotes}
use infiniband_diags.NetDisc.Hash.{Table}

abbrev pub ib_node_ca : ℕ
ib_node_ca = 1

abbrev pub ib_node_switch : ℕ
ib_node_switch = 2

abbrev pub ib_node_router : ℕ
ib_node_router = 3

-- ibnd_node_t. `ports` is the array, whose last index is `numports`: what reads or writes it stops
-- before a higher one.
pub record Node : Type 0 where
  pub type : ℕ
  pub numports : ℕ
  pub path_portid : PortId
  pub info : Buf
  pub switchinfo : Buf
  pub nodedesc : Buf
  pub smaenhsp0 : ℕ
  pub smalid : ℕ
  pub smalmc : ℕ
  pub ports : ℕ → Option ℕ
  pub next_all : Option ℕ
  pub type_next : Option ℕ

-- ibnd_port_t
pub record Port : Type 0 where
  pub owner : Option ℕ
  pub portnum : ℕ
  pub ext_portnum : ℕ
  pub base_lid : ℕ
  pub lmc : ℕ
  pub info : Buf
  pub ext_info : Buf

-- ibnd_fabric_t with f_internal_t and the scan. Addresses from `next_node` and `next_port` on have
-- not been given. `L` is the state of the cl_qmap that maps a LID to its port. `faulted` is no field
-- of the source: it is set where the source would access a slot behind an array of ports or read
-- through a null pointer, and there the model stops.
pub record Fabric (L : Type 0) : Type 0 where
  pub scan : Scan
  pub nodes : Table
  pub node_at : ℕ → Node
  pub next_node : ℕ
  pub portstbl : Table
  pub port_at : ℕ → Port
  pub remotes : Remotes
  pub next_port : ℕ
  pub lid2guid : L
  pub all_nodes : Option ℕ
  pub ch_adapters : Option ℕ
  pub switches : Option ℕ
  pub routers : Option ℕ
  pub from_node : Option ℕ
  pub from_portnum : ℕ
  pub faulted : Bool
