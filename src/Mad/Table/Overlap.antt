-- ===== src/Mad/Table/Overlap.antt =====
-- Entries of ib_mad_f that stand on the bits of another entry.
use infiniband_diags.Base.{ℕ, ◌≡◌, refl}
use infiniband_diags.Mad.Field.{
  Buf, get_field, set_field, get_prebits, get_bytes, get_postbits, set_prebits, set_bytes,
  set_postbits, set_field_within,
}
use infiniband_diags.Mad.Table.{ib_mad_f, mad_field, mad_get_field, mad_set_field}
use infiniband_diags.Mad.Numbers.{
  ib_pc_vl15_dropped_f, ib_pc_qp1_drop_f, ib_port_ext_edr_fec_mode_enabled_f,
  ib_port_ext_hdr_fec_mode_supported_f,
}

-- IB_PC_QP1_DROP_F and IB_PC_VL15_DROPPED_F are the same bits of the port counters, and
-- IB_PORT_EXT_HDR_FEC_MODE_SUPPORTED_F and IB_PORT_EXT_EDR_FEC_MODE_ENABLED_F are the same bits of
-- the extended port information: a read of one is a read of the other, in every buffer, and a
-- write of one is a write of the other.
pub overlapping_fields :
    (buf : Buf) (base_offs val : ℕ)
    → ((mad_get_field buf base_offs ib_pc_qp1_drop_f
          ≡ mad_get_field buf base_offs ib_pc_vl15_dropped_f)
        × (mad_set_field buf base_offs ib_pc_qp1_drop_f val
            ≡ mad_set_field buf base_offs ib_pc_vl15_dropped_f val))
      × ((mad_get_field buf base_offs ib_port_ext_hdr_fec_mode_supported_f
            ≡ mad_get_field buf base_offs ib_port_ext_edr_fec_mode_enabled_f)
          × (mad_set_field buf base_offs ib_port_ext_hdr_fec_mode_supported_f val
              ≡ mad_set_field buf base_offs ib_port_ext_edr_fec_mode_enabled_f val))
unfolding mad_get_field mad_set_field mad_field ib_mad_f get_field set_field get_prebits get_bytes
    get_postbits set_prebits set_bytes set_postbits set_field_within
overlapping_fields buf base_offs val = ((refl, refl), (refl, refl))
