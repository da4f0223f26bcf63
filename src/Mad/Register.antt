-- ===== src/Mad/Register.antt =====
-- libibmad/src/register.c and rpc.c: the agents of a port, and the opening and closing of a port.
-- libibumad, the allocator and errno are the parameter `System`, which owns a world of type `W`.
pub mod Turns
pub mod Opening
pub mod Agents
use infiniband_diags.Base.{
  ℕ, zero, suc, ◌%◌, ◌^◌, ◌/◌, Bool, true, false, not, ◌&&◌, ◌||◌, Option, none, some, List, [],
  ◌∷◌, length, leb, ◌==◌, if◌then◌else◌,
}
use infiniband_diags.Base.Int.{ℤ, pos, negsuc, is_negative, is_positive}
use infiniband_diags.Mad.Field.{Buf}
use infiniband_diags.Mad.Types.{ib_smi_class, ib_smi_direct_class, ib_sa_class, ib_cc_class}
use infiniband_diags.Mad.Encode.{mad_is_vendor_range2}
use infiniband_diags.Mad.Call.{zeroed}
use infiniband_diags.Mad.Rpc.{IbmadPort, enomem, einval}

-- umad_init, umad_open_port, umad_close_port, umad_register and umad_register_oui; malloc (false
-- for NULL), free and errno.
pub record System (W : Type 0) : Type 0 where
  pub init : W → ℤ × W
  pub open_port : (dev_name : Option Buf) (dev_port : ℤ) → W → ℤ × W
  pub close_port : (port_id : ℕ) → W → W
  pub register :
      (port_id : ℕ) (mgmt : ℤ) (vers rmpp_version : ℕ) (method_mask : Option Buf) → W → ℤ × W
  pub register_oui : (port_id : ℕ) (mgmt : ℤ) (rmpp_version : ℕ) (oui method_mask : Buf) → W → ℤ × W
  pub malloc : W → Bool × W
  pub free : W → W
  pub errno : W → ℕ
  pub set_errno : ℕ → W → W

abbrev pub max_class : ℕ
max_class = 256

abbrev pub eio : ℕ
eio = 5

abbrev pub enodev : ℕ
enodev = 19

-- enum MAD_CLASSES
abbrev pub ib_performance_class : ℕ
ib_performance_class = 0x4

abbrev pub ib_board_mgmt_class : ℕ
ib_board_mgmt_class = 0x5

abbrev pub ib_device_mgmt_class : ℕ
ib_device_mgmt_class = 0x6

-- IB_VENDOR_RANGE1_START_CLASS to IB_VENDOR_RANGE1_END_CLASS, and range 2 behind it
unfoldable pub is_vendor : ℕ → Bool
is_vendor mgmt = leb 0x9 mgmt && leb mgmt 0xf || mad_is_vendor_range2 mgmt

unfoldable pub mgmt_class_vers : ℤ → ℕ
mgmt_class_vers (negsuc mgmt) = 0
mgmt_class_vers (pos mgmt) =
    if is_vendor mgmt
    then 1
    else if mgmt == ib_smi_class || mgmt == ib_smi_direct_class
    then 1
    else if mgmt == ib_sa_class
    then 2
    else if mgmt == ib_performance_class
    then 1
    else if mgmt == ib_device_mgmt_class
    then 1
    else if mgmt == ib_cc_class
    then 2
    else if mgmt == ib_board_mgmt_class
    then 1
    else 0

-- mgmt < 0 || mgmt >= MAX_CLASS, the other way round
abbrev pub in_range : ℤ → Bool
in_range (pos mgmt) = not (leb max_class mgmt)
in_range (negsuc mgmt) = false

-- mad_class_agent and mad_rpc_class_agent
unfoldable pub mad_rpc_class_agent : IbmadPort → ℤ → ℤ
mad_rpc_class_agent port (negsuc class) = negsuc 0
mad_rpc_class_agent port (pos class) =
    if class == 0 || leb max_class class then negsuc 0 else port.class_agents class

unfoldable pub mad_rpc_set_retries : IbmadPort → ℤ → IbmadPort
mad_rpc_set_retries port retries = record port { retries = retries }

unfoldable pub mad_rpc_set_timeout : IbmadPort → ℤ → IbmadPort
mad_rpc_set_timeout port timeout = record port { timeout = timeout }

-- The new value of the global `madrpc_retries`.
unfoldable pub madrpc_set_retries : ℤ → ℤ → ℤ
madrpc_set_retries madrpc_retries retries = if is_positive retries then retries else madrpc_retries

-- srcport->class_agents[mgmt] = agent
unfoldable pub set_agent : IbmadPort → ℤ → ℤ → IbmadPort
set_agent port (pos mgmt) agent = record port {
  class_agents = λ class. if class == mgmt then agent else port.class_agents class;
}
set_agent port (negsuc mgmt) agent = port

-- oui[0], oui[1], oui[2]
abbrev pub oui_bytes : ℕ → Buf
oui_bytes class_oui zero = class_oui / 2 ^ 16 % 2 ^ 8
oui_bytes class_oui (suc zero) = class_oui / 2 ^ 8 % 2 ^ 8
oui_bytes class_oui (suc (suc a)) = class_oui % 2 ^ 8

-- class_method_mask
abbrev pub method_mask_or_all : Option Buf → Buf
method_mask_or_all none = λ a. 0xff
method_mask_or_all (some method_mask) = method_mask

-- rmpp_version: 1 for IB_SA_CLASS
unfoldable pub rmpp_version_of : ℤ → ℕ
rmpp_version_of (pos mgmt) = if mgmt == ib_sa_class then 1 else 0
rmpp_version_of (negsuc mgmt) = 0

-- The port after its two memsets.
unfoldable pub fresh_port : ℕ → IbmadPort
fresh_port port_id = record {
  port_id = port_id;
  class_agents = λ class. negsuc 0;
  timeout = pos 0;
  retries = pos 0;
  smp_mkey = 0;
}

module _ {W : Type 0} (sys : System W) where
  unfoldable pub mad_register_port_client : (port_id : ℕ) → ℤ → (rmpp_version : ℕ) → W → ℤ × W
  mad_register_port_client port_id mgmt rmpp_version w =
      let vers = mgmt_class_vers mgmt in
      let registered = sys.register port_id mgmt vers rmpp_version none w in
      if vers == 0 then (negsuc 0, w) else registered

  -- mad_register_client_via; the port is the one that it leaves.
  unfoldable pub mad_register_client_via :
      ℤ → (rmpp_version : ℕ) → IbmadPort → W → (ℤ × IbmadPort) × W
  mad_register_client_via mgmt rmpp_version srcport w =
      let (agent, w') = mad_register_port_client srcport.port_id mgmt rmpp_version w in
      if is_negative agent
      then ((agent, srcport), w')
      else ((pos 0, set_agent srcport mgmt agent), w')

  -- mad_register_server_via, where `mgmt` is an index of the table.
  unfoldable pub mad_register_server_via :
      (mgmt rmpp_version : ℕ) (method_mask : Option Buf) (class_oui : ℕ)
      → IbmadPort
      → W
      → (ℤ × IbmadPort) × W
  mad_register_server_via mgmt rmpp_version method_mask class_oui srcport w =
      let mask = method_mask_or_all method_mask in
      let vers = mgmt_class_vers (pos mgmt) in
      let (agent, w') =
        (if mad_is_vendor_range2 mgmt
          then sys.register_oui srcport.port_id (pos mgmt) rmpp_version (oui_bytes class_oui) mask w
          else sys.register srcport.port_id (pos mgmt) vers rmpp_version (some mask) w) in
      if not (is_negative (srcport.class_agents mgmt))
      then ((negsuc 0, srcport), w)
      else if vers == 0
      then ((negsuc 0, srcport), w)
      else if is_negative agent
      then ((negsuc 0, srcport), w')
      else ((agent, set_agent srcport (pos mgmt) agent), w')

  -- while (num_classes--): false where a registration fails.
  unfoldable pub register_classes : (mgmt_classes : List ℤ) → IbmadPort → W → (Bool × IbmadPort) × W
  register_classes [] p w = ((true, p), w)
  register_classes (mgmt ∷ mgmt_classes) p w =
      let ((rc, p'), w') = mad_register_client_via mgmt (rmpp_version_of mgmt) p w in
      let rest = register_classes mgmt_classes p' w' in
      if not (in_range mgmt)
      then ((false, p), w)
      else if is_negative rc
      then ((false, p'), w')
      else rest

  -- if (!errno) errno = e
  unfoldable pub default_errno : ℕ → W → W
  default_errno e w = if sys.errno w == 0 then sys.set_errno e w else w

  unfoldable pub mad_rpc_close_port : IbmadPort → W → W
  mad_rpc_close_port port w = sys.free (sys.close_port port.port_id w)

  -- The loop of mad_rpc_open_port, and what follows it.
  unfoldable pub register_or_close :
      (port_id : ℕ) (mgmt_classes : List ℤ) → W → Option IbmadPort × W
  register_or_close port_id mgmt_classes w =
      let ((ok, p), w') = register_classes mgmt_classes (fresh_port port_id) w in
      if ok
      then (some p, w')
      else (none, sys.free (sys.close_port port_id (default_errno einval w')))

  -- mad_rpc_open_port; `mgmt_classes` has `num_classes` entries, and `none` is NULL.
  unfoldable pub mad_rpc_open_port :
      (dev_name : Option Buf) (dev_port : ℤ) (mgmt_classes : List ℤ) → W → Option IbmadPort × W
  mad_rpc_open_port dev_name dev_port mgmt_classes w =
      let (rc, w₁) = sys.init w in
      let (allocated, w₂) = sys.malloc w₁ in
      let (fd, w₃) = sys.open_port dev_name dev_port w₂ in
      let opened : Option IbmadPort × W = elim fd [
        | pos port_id ↦ register_or_close port_id mgmt_classes w₃
        | negsuc n ↦ (none, sys.free (default_errno eio w₃))
      ] in
      if leb max_class (length mgmt_classes)
      then (none, sys.set_errno einval w)
      else if is_negative rc
      then (none, sys.set_errno enodev w₁)
      else if not allocated
      then (none, sys.set_errno enomem w₂)
      else opened
