-- ===== src/NetDisc/Path/Laws.antt =====
-- The routes that discovery makes: they can be sent, and a hop that is retracted leaves no trace.
use infiniband_diags.Base.{
  ℕ, suc, ◌+◌, ◌%◌, ◌^◌, ◌≤◌, ◌<◌, ◌≡◌, ◌≢◌, refl, sym, ap, ◌∙◌, inl, inr, Bool-cases, false,
  Option, Option-cases, none, some, ltb, arith,
}
use infiniband_diags.Base.Int.{ℤ, pos, negsuc, is_zero, at_least}
use infiniband_diags.Mad.Field.{Buf, update}
use infiniband_diags.Mad.Types.{DrPath, PortId, Rpc, RmppHdr, ib_subnet_path_hops_max}
use infiniband_diags.Mad.Packet.{mad_build_pkt}
use infiniband_diags.Mad.Packet.Laws.{mad_build_pkt-none_iff}
use infiniband_diags.NetDisc.Path.{
  Scan, add_port_to_dpath, too_far, from_lid, count_hop, extend_dpath, drop_hop, retract_dpath,
}

-- `longer` is `path` with one more hop, and fits the 64 bytes of a route.
pub record Extends (path : DrPath) (port : ℕ) (longer : DrPath) : Type 0 where
  pub hops : ℕ
  pub before : path.cnt ≡ pos hops
  pub after : longer.cnt ≡ pos (suc hops)
  pub fits : suc hops < 64
  pub last : longer.p (suc hops) ≡ port % 2 ^ 8
  pub others : (a : ℕ) → a ≤ hops → longer.p a ≡ path.p a

add_port-Extends :
    (cnt : ℤ) (path longer : DrPath) (port : ℕ)
    → path.cnt ≡ cnt
    → add_port_to_dpath path port ≡ some longer
    → Extends path port longer
unfolding add_port_to_dpath
add_port-Extends (pos n) path longer port e h = elim (Bool-cases (ltb 62 n)) [
  | inl full ↦
      let refused : add_port_to_dpath path port ≡ none = rw (add_port_to_dpath, e, full) refl in
      absurd (cc)
  | inr room ↦
      let made : DrPath = record path {
        cnt = pos (suc n);
        p = update path.p (suc n) (port % 2 ^ 8);
      } in
      let added : add_port_to_dpath path port ≡ some made = rw (add_port_to_dpath, e, room) refl in
      let same : made ≡ longer = cc in
      rw (← same) (record {
        hops = n;
        before = e;
        after = refl;
        fits = ground (arith, room);
        last = ground arith;
        others = λ a le. ground (arith, le);
      })
]
add_port-Extends (negsuc n) path longer port e h =
    let refused : add_port_to_dpath path port ≡ none = rw (add_port_to_dpath, e) refl in absurd (cc)

-- An extension that succeeds adds the port as the last hop: the count of hops grows by one and
-- stays below 64, and the hops before it are those of the route.
pub extend_dpath-Extends :
    (scan : Scan) (portid : PortId) (port : ℕ)
    → (extend_dpath scan portid port).0 ≡ pos 1
    → Extends (from_lid scan portid).drpath port (extend_dpath scan portid port).1.1.drpath
unfolding extend_dpath
extend_dpath-Extends scan portid port h = elim (Bool-cases (too_far scan)) [
  | inl far ↦
      let stopped : (extend_dpath scan portid port).0 ≡ pos 0 = rw (extend_dpath, far) refl in
      let zero_is_one = ap is_zero (sym stopped ∙ h) in absurd (cc)
  | inr near ↦ elim (Option-cases (add_port_to_dpath (from_lid scan portid).drpath port)) [
    | inl full ↦
        let stopped : (extend_dpath scan portid port).0 ≡ negsuc 0 =
          rw (extend_dpath, near, full) refl in
        absurd (cc)
    | inr (longer, added) ↦
        rw (extend_dpath, near, added)
          (add_port-Extends (from_lid scan portid).drpath.cnt (from_lid scan portid).drpath longer
            port refl added)
  ]
]

-- For a route that was extended with success, `mad_build_pkt` does not fail.
pub extend_dpath-mad_build_pkt :
    (scan : Scan) (portid : PortId) (port : ℕ) (seed trid : ℕ) (mad : Buf) (rpc : Rpc)
    (rmpp : Option RmppHdr) (payload : Option Buf)
    → (extend_dpath scan portid port).0 ≡ pos 1
    → mad_build_pkt seed trid mad rpc (extend_dpath scan portid port).1.1 rmpp payload ≢ none
extend_dpath-mad_build_pkt scan portid port seed trid mad rpc rmpp payload h refused =
    let e = extend_dpath-Extends scan portid port h in
    let long =
      ((mad_build_pkt-none_iff seed trid mad rpc (extend_dpath scan portid port).1.1 rmpp payload).0
        refused).1 in
    let short : at_least ib_subnet_path_hops_max (extend_dpath scan portid port).1.1.drpath.cnt
        ≡ false =
      rw e.after (ground (arith, e.fits)) in
    absurd (cc)

-- The same count of hops, and the same hops.
pub record SameRoute (path other : DrPath) : Type 0 where
  pub hops : ℕ
  pub count : path.cnt ≡ pos hops
  pub count' : other.cnt ≡ pos hops
  pub same : (a : ℕ) → a ≤ hops → other.p a ≡ path.p a

drop-SameRoute :
    (path longer : DrPath) (port : ℕ) → Extends path port longer → SameRoute path (drop_hop longer)
unfolding drop_hop
drop-SameRoute path longer port e = record {
  hops = e.hops;
  count = e.before;
  count' = rw (drop_hop, e.after) refl;
  same = λ a le. rw (drop_hop, e.after) (ground (arith, le, e.others a le));
}

-- A hop that was added and is then retracted, both with success, leaves the count of hops and the
-- hops as they were.
pub retract_dpath-extend_dpath :
    (scan scan' : Scan) (portid : PortId) (port : ℕ)
    → (extend_dpath scan portid port).0 ≡ pos 1
    → (retract_dpath scan' (extend_dpath scan portid port).1.1).0 ≡ pos 1
    → SameRoute
        (from_lid scan portid).drpath
        (retract_dpath scan' (extend_dpath scan portid port).1.1).1.1.drpath
unfolding retract_dpath
retract_dpath-extend_dpath scan scan' portid port h k = elim (Bool-cases (too_far scan')) [
  | inl far ↦
      let stopped : (retract_dpath scan' (extend_dpath scan portid port).1.1).0 ≡ pos 0 =
        rw (retract_dpath, far) refl in
      let zero_is_one = ap is_zero (sym stopped ∙ k) in absurd (cc)
  | inr near ↦
      rw (retract_dpath, near)
        (drop-SameRoute (from_lid scan portid).drpath _ port
          (extend_dpath-Extends scan portid port h))
]

-- The bound on the hops that are counted: one more than the limit, when there is a limit.
abbrev pub IsBounded : Scan → Type 0
IsBounded scan = scan.maxhops_discovered ≤ scan.max_hops + 1

near_le :
    (scan : Scan)
    → too_far scan ≡ false
    → 0 < scan.max_hops
    → scan.maxhops_discovered ≤ scan.max_hops
near_le scan near limit = ground (arith, near, limit)

count_hop-IsBounded :
    (scan : Scan) (path : DrPath)
    → too_far scan ≡ false
    → 0 < scan.max_hops
    → scan.max_hops + 1 < 2 ^ 32
    → IsBounded (count_hop scan path)
unfolding count_hop
count_hop-IsBounded scan path near limit fits =
    let le = near_le scan near limit in ground (arith, le, fits)

-- When the hops are limited, to less than 2^32 - 1, the largest count of hops never exceeds the
-- limit by more than one, whether a route is extended or retracted.
pub hops-IsBounded :
    (scan : Scan) (portid : PortId) (port : ℕ)
    → IsBounded scan
    → 0 < scan.max_hops
    → scan.max_hops + 1 < 2 ^ 32
    → IsBounded (extend_dpath scan portid port).1.0 × IsBounded (retract_dpath scan portid).1.0
unfolding extend_dpath retract_dpath
hops-IsBounded scan portid port bound limit fits = elim (Bool-cases (too_far scan)) [
  | inl far ↦ (rw (extend_dpath, far) bound, rw (retract_dpath, far) bound)
  | inr near ↦ (
    elim (Option-cases (add_port_to_dpath (from_lid scan portid).drpath port)) [
      | inl full ↦ rw (extend_dpath, near, full) bound
      | inr (longer, added) ↦
          rw (extend_dpath, near, added) (count_hop-IsBounded scan longer near limit fits)
    ],
    rw (retract_dpath, near) (omega (arith, near_le scan near limit, fits)),
  )
]
