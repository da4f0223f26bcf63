-- ===== src/NetDisc/Path.antt =====
-- libibnetdisc/src/ibnetdisc.c: directed routes that grow and shrink by a hop.
pub mod Laws
use infiniband_diags.Base.{
  ℕ, zero, suc, ◌+◌, ◌-◌, ◌%◌, ◌^◌, ◌≤◌, Bool, true, false, not, ◌&&◌, Option, none, some, ltb,
  ◌==◌, if◌then◌else◌,
}
use infiniband_diags.Base.Int.{ℤ, pos, negsuc, is_zero, to_u32}
use infiniband_diags.Mad.Field.{update}
use infiniband_diags.Mad.Types.{DrPath, PortId}

-- ibnd_scan_t, the part that bounds the hops
pub record Scan : Type 0 where
  pub max_hops : ℕ
  pub initial_hops : ℕ
  pub self_lid : ℤ
  pub maxhops_discovered : ℕ

-- `none` is the return of -1. A negative `cnt` is a large number where it is compared with a size.
unfoldable pub add_port_to_dpath : DrPath → ℕ → Option DrPath
add_port_to_dpath path nextport = elim path.cnt [
  | pos n ↦
      if ltb 62 n
      then none
      else some (record path { cnt = pos (suc n); p = update path.p (suc n) (nextport % 2 ^ 8) })
  | negsuc n ↦ none
]

-- scan->cfg->max_hops && maxhops_discovered > scan->cfg->max_hops
abbrev pub too_far : Scan → Bool
too_far scan = not (scan.max_hops == 0) && ltb scan.max_hops scan.maxhops_discovered

-- If we were LID routed we need to set up the drslid.
unfoldable pub from_lid : Scan → PortId → PortId
from_lid scan portid = if is_zero portid.lid then portid else record portid {
  drpath = record portid.drpath { drslid = to_u32 scan.self_lid % 2 ^ 16; drdlid = 0xffff };
}

-- (unsigned) cnt - initial_hops > maxhops_discovered
unfoldable pub count_hop : Scan → DrPath → Scan
count_hop scan path =
    let hops = (to_u32 path.cnt + 2 ^ 32 - scan.initial_hops % 2 ^ 32) % 2 ^ 32 in
    if ltb scan.maxhops_discovered hops
    then record scan { maxhops_discovered = (scan.maxhops_discovered + 1) % 2 ^ 32 }
    else scan

-- The return, the counters and the path.
abbrev pub Hop : Type 0
Hop = ℤ × (Scan × PortId)

unfoldable pub extend_dpath : Scan → PortId → ℕ → Hop
extend_dpath scan portid nextport =
    let from = from_lid scan portid in
    let longer : Hop = elim (add_port_to_dpath from.drpath nextport) [
      | none ↦ (negsuc 0, (scan, from))
      | some path ↦ (pos 1, (count_hop scan path, record from { drpath = path }))
    ] in
    if too_far scan then (pos 0, (scan, portid)) else longer

-- portid->drpath.p[cnt] = 0; cnt--. A write before the array is not modelled.
unfoldable pub drop_hop : DrPath → DrPath
drop_hop path = elim path.cnt [
  | pos zero ↦ record path { cnt = negsuc 0; p = update path.p 0 0 }
  | pos (suc n) ↦ record path { cnt = pos n; p = update path.p (suc n) 0 }
  | negsuc n ↦ record path { cnt = negsuc (suc n) }
]

unfoldable pub retract_dpath : Scan → PortId → Hop
retract_dpath scan portid = if too_far scan then (pos 0, (scan, portid)) else (
  pos 1,
  (
    record scan { maxhops_discovered = (scan.maxhops_discovered + 1) % 2 ^ 32 },
    record portid { drpath = drop_hop portid.drpath },
  ),
)
