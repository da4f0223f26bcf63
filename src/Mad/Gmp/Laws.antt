-- ===== src/Mad/Gmp/Laws.antt =====
-- libibmad/src/gs.c: what a reset of counters selects.
use infiniband_diags.Base.{
  ℕ, ◌-◌, ◌/◌, ◌%◌, ◌^◌, ◌<◌, ◌≡◌, refl, ◌∙◌, inl, inr, Bool-cases, [], ◌∷◌, arith, ◌==◌,
  if◌then◌else◌,
}
use infiniband_diags.Mad.Field.{Buf, IsBytes}
use infiniband_diags.Mad.Table.{ib_mad_f, mad_field, mad_get_field, mad_set_field}
use infiniband_diags.Mad.Table.Writes.{Write, apply_writes, apply_writes-IsBytes, read_written}
use infiniband_diags.Mad.Wide.{memcpy}
use infiniband_diags.Mad.Wide.Laws.{memcpy-IsBytes}
use infiniband_diags.Mad.Types.{ib_mad_size}
use infiniband_diags.Mad.Numbers.{
  ib_pc_port_select_f, ib_pc_counter_select_f, ib_pc_counter_select2_f, ib_pc_ext_counter_select2_f,
}
use infiniband_diags.Mad.Call.{zeroed}
use infiniband_diags.Mad.Gmp.{reset_buffer, ib_gsi_port_counters_ext}

-- The counters that are asked for: all of them for no mask.
abbrev pub selection : ℕ → ℕ
selection mask = if mask == 0 then 2 ^ 32 - 1 else mask

-- What the buffer of a reset selects.
pub record Selects (port mask id : ℕ) (buf : Buf) : Type 0 where
  pub port_select : mad_get_field buf 0 ib_pc_port_select_f ≡ port
  pub low : mad_get_field buf 0 ib_pc_counter_select_f ≡ selection mask % 2 ^ 16
  pub high :
      (if id == ib_gsi_port_counters_ext
        then mad_get_field buf 0 ib_pc_ext_counter_select2_f
        else mad_get_field buf 0 ib_pc_counter_select2_f)
      ≡ (if id == ib_gsi_port_counters_ext
          then selection mask / 2 ^ 16
          else selection mask / 2 ^ 16 % 2 ^ 8)

module _ (rcvbuf : Buf) (bytes : IsBytes rcvbuf) (port mask : ℕ) (p_ok : port < 2 ^ 8)
    (m_ok : mask < 2 ^ 32) where
  abbrev cleared : Buf
  cleared = memcpy rcvbuf 0 zeroed ib_mad_size

  cleared-IsBytes : IsBytes cleared
  cleared-IsBytes = memcpy-IsBytes rcvbuf zeroed 0 ib_mad_size bytes (λ a. omega arith)

  selection_fits : selection mask < 2 ^ 32
  selection_fits = ground (arith, m_ok)

  abbrev p : Write
  p = (ib_pc_port_select_f, port)

  abbrev c : Write
  c = (ib_pc_counter_select_f, selection mask)

  -- A reset of counters asks for the port, and for the counters of the mask, or for all when the
  -- mask is 0: the low half in CounterSelect and the high half in CounterSelect2, which has 8 bits
  -- but for the extended counters. The port has 8 bits and the mask 32.
  pub reset_buffer-Selects : (id : ℕ) → Selects port mask id (reset_buffer rcvbuf port mask id)
  unfolding reset_buffer apply_writes mad_field ib_mad_f
  reset_buffer-Selects id =
      let first = read_written cleared ib_pc_port_select_f port in
      let second =
        read_written (mad_set_field cleared 0 ib_pc_port_select_f port) ib_pc_counter_select_f
          (selection mask) in
      let kept = apply_writes-IsBytes cleared (p ∷ []) cleared-IsBytes in
      let last = apply_writes-IsBytes cleared (p ∷ c ∷ []) cleared-IsBytes in
      elim (Bool-cases (id == ib_gsi_port_counters_ext)) [
        | inl ext ↦
            let h : Write = (ib_pc_ext_counter_select2_f, selection mask / 2 ^ 16) in
            rw (reset_buffer, ext)
              (record {
                port_select = first (c ∷ h ∷ []) cleared-IsBytes refl refl ∙ omega (arith, p_ok);
                low = second (h ∷ []) kept refl refl;
                high = rw ext (
                    read_written _ ib_pc_ext_counter_select2_f (selection mask / 2 ^ 16) [] last
                      refl refl
                    ∙ omega (arith, selection_fits));
              })
        | inr other ↦
            let h : Write = (ib_pc_counter_select2_f, selection mask / 2 ^ 16) in
            rw (reset_buffer, other)
              (record {
                port_select = first (c ∷ h ∷ []) cleared-IsBytes refl refl ∙ omega (arith, p_ok);
                low = second (h ∷ []) kept refl refl;
                high = rw other (
                    read_written _ ib_pc_counter_select2_f (selection mask / 2 ^ 16) [] last refl
                      refl);
              })
      ]
