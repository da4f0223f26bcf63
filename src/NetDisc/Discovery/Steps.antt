-- ===== src/NetDisc/Discovery/Steps.antt =====
-- The handlers' queries and changes, one by one, keep the engine and the fabric well-formed.
use infiniband_diags.Base.{
  ==_iff, ℕ, ◌≡◌, refl, inl, inr, Bool, true, Bool-cases, some, arith, ◌==◌, if◌then◌else◌,
}
use infiniband_diags.Base.Int.{ℤ, pos, negsuc, is_positive}
use infiniband_diags.Mad.Types.{PortId}
use infiniband_diags.Mad.Rpc.{Umad}
use infiniband_diags.Mad.Rpc.Receive.{IsFinite}
use infiniband_diags.NetDisc.Engine.{Smp, QMap, Config, store}
use infiniband_diags.NetDisc.Engine.Serving.{IsQMap}
use infiniband_diags.NetDisc.Query.{issue_smp}
use infiniband_diags.NetDisc.Query.Well.{IsWell}
use infiniband_diags.NetDisc.Query.Ends.{
  IsWell-cong, Lasting, returned-Lasting, Lasting-trans, Lasting-if, issue_smp-Lasting,
}
use infiniband_diags.NetDisc.Path.{Scan}
use infiniband_diags.NetDisc.Fabric.Heap.{Fabric}
use infiniband_diags.NetDisc.Fabric.Invariant.{IsFabric}
use infiniband_diags.NetDisc.Discovery.{
  Callback, on_node_info, Scanner, Result, fault, unless, then_do, with_fabric, query, query_at,
  proceed, ib_attr_node_info,
}
use infiniband_diags.NetDisc.Discovery.Routes.{IbTypes, route_on, lacks_port0, leads_on}

module _ {W M L : Type 0} (umad : Umad W) (qmap : QMap M) (lids : QMap L) (cfg : Config)
    (types : IbTypes) (mlx_epi : Bool) (seed room : ℕ) (laws : IsQMap qmap) (size : W → ℕ)
    (finite : IsFinite umad size) where
  abbrev pub Scans : Type 0
  Scans = Scanner umad qmap lids cfg types mlx_epi seed room

  abbrev pub Out : Type 0
  Out = Result umad qmap lids cfg types mlx_epi seed room

  -- What is asked of the engine before a step, and what is promised behind it.
  abbrev pub Good : Scans → Type 0
  Good engine = IsWell qmap cfg engine × IsFabric engine.user_data

  abbrev pub Goes : Scans → Out → Type 0
  Goes engine out = Lasting umad qmap cfg seed laws size finite IsFabric engine out

  pub ends-Goes : (engine : Scans) (rc : ℤ) → Good engine → Goes engine (some rc, engine)
  ends-Goes engine rc good =
      returned-Lasting umad qmap cfg seed laws size finite IsFabric engine engine rc good.0 good.1
        (omega arith)

  pub with_fabric-Good :
      (engine : Scans) (fab : Fabric L)
      → Good engine
      → IsFabric fab
      → Good (with_fabric umad qmap lids cfg types mlx_epi seed room engine fab)
  with_fabric-Good engine fab good ok =
      (IsWell-cong qmap cfg engine _ refl refl refl (omega arith) (λ a. refl) good.0, ok)

  pub with_fabric-Goes :
      (engine : Scans) (fab : Fabric L) (out : Out)
      → Goes (with_fabric umad qmap lids cfg types mlx_epi seed room engine fab) out
      → Goes engine out
  with_fabric-Goes engine fab out goes =
      Lasting-trans umad qmap cfg seed laws size finite IsFabric engine
        (with_fabric umad qmap lids cfg types mlx_epi seed room engine fab) out (omega arith) goes

  pub if-Goes :
      (engine : Scans) (p q : Out) (b : Bool)
      → Goes engine p
      → Goes engine q
      → Goes engine (if b then p else q)
  if-Goes = Lasting-if umad qmap cfg seed laws size finite IsFabric

  pub then_do-Goes :
      (engine : Scans) (out : Out) (next : Scans → Out)
      → Goes engine out
      → ((after : Scans) → Good after → Goes after (next after))
      → Goes engine (then_do out next)
  then_do-Goes engine (o, after) next goes f =
      let rest = f after (goes.well, goes.holds) in
      let ends : Goes engine (next after) =
        Lasting-trans umad qmap cfg seed laws size finite IsFabric engine after (next after)
          goes.fewer rest in
      rw goes.returned ends

  pub query-Goes :
      (engine : Scans) (path : PortId) (attrid modifier : ℕ) (cb : Callback)
      → Good engine
      → Goes engine
          (query umad qmap lids cfg types mlx_epi seed room engine path attrid modifier cb)
  query-Goes engine path attrid modifier cb good =
      issue_smp-Lasting umad qmap cfg seed laws size finite IsFabric room engine path attrid
        modifier cb good.0 good.1

  qnext_kept :
      (heap : ℕ → Smp Callback) (smp a : ℕ) (path : PortId)
      → (store heap smp (record (heap smp) { path = path }) a).qnext ≡ (heap a).qnext
  qnext_kept heap smp a path = elim (Bool-cases (a == smp)) [
    | inl here ↦ let e : a ≡ smp = (==_iff _ _).0 here in rw (here, e) refl
    | inr away ↦ rw away refl
  ]

  pub query_at-Goes :
      (engine : Scans) (smp attrid modifier : ℕ) (cb : Callback)
      → Good engine
      → Goes engine
          (query_at umad qmap lids cfg types mlx_epi seed room engine smp attrid modifier cb)
  unfolding query_at
  query_at-Goes engine smp attrid modifier cb good =
      let path = (engine.heap smp).path in
      let goes = query-Goes engine path attrid modifier cb good in
      let issued = issue_smp umad qmap cfg seed room engine path attrid modifier cb in
      record {
        rc = goes.rc;
        returned = goes.returned;
        well =
            IsWell-cong qmap cfg issued.0.1 _ refl refl refl (omega arith)
              (λ a. qnext_kept issued.0.1.heap smp a issued.1) goes.well;
        holds = goes.holds;
        fewer = goes.fewer;
      }

  scan-IsFabric :
      (fab : Fabric L) (scan : Scan) → IsFabric fab → IsFabric (record fab { scan = scan })
  scan-IsFabric fab scan ok = record {
    mutual_links = ok.mutual_links;
    unlinked = ok.unlinked;
    placed = ok.placed;
    within = ok.within;
    catalog = ok.catalog;
  }

  faulted-IsFabric : (fab : Fabric L) → IsFabric fab → IsFabric (record fab { faulted = true })
  faulted-IsFabric fab ok = record {
    mutual_links = ok.mutual_links;
    unlinked = ok.unlinked;
    placed = ok.placed;
    within = ok.within;
    catalog = ok.catalog;
  }

  pub fault-Goes :
      (engine : Scans)
      → Good engine
      → Goes engine (fault umad qmap lids cfg types mlx_epi seed room engine)
  fault-Goes engine good =
      let marked = record engine.user_data { faulted = true } in
      with_fabric-Goes engine marked _ (
        ends-Goes _ (negsuc 0)
          (with_fabric-Good engine marked good (faulted-IsFabric engine.user_data good.1)))

  -- A handler that stops before an undefined access, and else goes on.
  pub unless-Goes :
      (undefined : Bool) (engine : Scans) (out : Out)
      → Good engine
      → Goes engine out
      → Goes engine (unless umad qmap lids cfg types mlx_epi seed room undefined engine out)
  unless-Goes undefined engine out good goes =
      if-Goes engine _ out undefined (fault-Goes engine good) goes

  -- The end that three handlers share.
  pub proceed-Goes :
      (engine : Scans) (smp nd port port_num local_port : ℕ)
      → Good engine
      → Goes engine (
          proceed umad qmap lids cfg types mlx_epi seed room engine smp nd port port_num local_port)
  unfolding proceed
  proceed-Goes engine smp nd port port_num local_port good =
      let fab = engine.user_data in
      let hop = route_on fab (engine.heap smp).path nd port_num in
      let routed =
        with_fabric umad qmap lids cfg types mlx_epi seed room engine
          (record fab { scan = hop.1.0 }) in
      let ready = with_fabric-Good engine _ good (scan-IsFabric fab hop.1.0 good.1) in
      unless-Goes (lacks_port0 fab nd) engine _ good (
        if-Goes engine _ _ (leads_on types fab nd port port_num local_port)
          (with_fabric-Goes engine (record fab { scan = hop.1.0 }) _
            (then_do-Goes routed _ _
              (if-Goes routed _ _ (is_positive hop.0)
                (query-Goes routed hop.1.1 ib_attr_node_info 0 (on_node_info (some (nd, port_num)))
                  ready)
                (ends-Goes routed (pos 0) ready))
              (λ after ok. ends-Goes after (pos 0) ok)))
          (ends-Goes engine (pos 0) good))
