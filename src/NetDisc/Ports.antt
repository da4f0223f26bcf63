-- ===== src/NetDisc/Ports.antt =====
-- libibnetdisc/src/ibnetdisc.c: the links between ports, and the chains of the hash tables.
pub mod Links
use infiniband_diags.Base.{
  ℕ, zero, suc, ◌+◌, ◌*◌, ◌/◌, ◌%◌, ◌^◌, bit_xor, ◌≡◌, Bool, true, false, Option, none, some, ◌==◌,
  if◌then◌else◌,
}

-- The field `remoteport` of every port, by the port's address.
abbrev pub Remotes : Type 0
Remotes = ℕ → Option ℕ

abbrev pub set_remote : Remotes → ℕ → Option ℕ → Remotes
set_remote remotes port to a = if a == port then to else remotes a

-- if (port->remoteport) port->remoteport->remoteport = NULL;
unfoldable pub unlink : Remotes → ℕ → Remotes
unlink remotes port = elim (remotes port) [
  | none ↦ remotes
  | some peer ↦ set_remote remotes peer none
]

unfoldable pub link_ports : Remotes → ℕ → ℕ → Remotes
link_ports remotes port remoteport =
    let remotes₁ = unlink remotes port in
    let remotes₂ = unlink remotes₁ remoteport in
    set_remote (set_remote remotes₂ port (some remoteport)) remoteport (some port)
