-- ===== src/Mad/Numbers.antt =====
-- libibmad/include/infiniband/mad.h: the numbers of the fields that the modelled code names, in
-- `enum MAD_FIELDS`.
use infiniband_diags.Base.{ℕ}

abbrev pub ib_mad_method_f : ℕ
ib_mad_method_f = 3

abbrev pub ib_mad_response_f : ℕ
ib_mad_response_f = 4

abbrev pub ib_mad_classver_f : ℕ
ib_mad_classver_f = 5

abbrev pub ib_mad_mgmtclass_f : ℕ
ib_mad_mgmtclass_f = 6

abbrev pub ib_mad_basever_f : ℕ
ib_mad_basever_f = 7

abbrev pub ib_mad_status_f : ℕ
ib_mad_status_f = 8

abbrev pub ib_drsmp_hopcnt_f : ℕ
ib_drsmp_hopcnt_f = 9

abbrev pub ib_drsmp_hopptr_f : ℕ
ib_drsmp_hopptr_f = 10

abbrev pub ib_drsmp_status_f : ℕ
ib_drsmp_status_f = 11

abbrev pub ib_drsmp_direction_f : ℕ
ib_drsmp_direction_f = 12

abbrev pub ib_mad_trid_f : ℕ
ib_mad_trid_f = 13

abbrev pub ib_mad_attrid_f : ℕ
ib_mad_attrid_f = 14

abbrev pub ib_mad_attrmod_f : ℕ
ib_mad_attrmod_f = 15

abbrev pub ib_mad_mkey_f : ℕ
ib_mad_mkey_f = 16

abbrev pub ib_drsmp_drdlid_f : ℕ
ib_drsmp_drdlid_f = 17

abbrev pub ib_drsmp_drslid_f : ℕ
ib_drsmp_drslid_f = 18

abbrev pub ib_drsmp_rpath_f : ℕ
ib_drsmp_rpath_f = 26

abbrev pub ib_drsmp_path_f : ℕ
ib_drsmp_path_f = 25

abbrev pub ib_sa_compmask_f : ℕ
ib_sa_compmask_f = 21

abbrev pub ib_cc_cckey_f : ℕ
ib_cc_cckey_f = 520

abbrev pub ib_vend2_oui_f : ℕ
ib_vend2_oui_f = 192

abbrev pub ib_cpi_redirect_lid_f : ℕ
ib_cpi_redirect_lid_f = 215

abbrev pub ib_cpi_redirect_qp_f : ℕ
ib_cpi_redirect_qp_f = 217

abbrev pub ib_cpi_redirect_qkey_f : ℕ
ib_cpi_redirect_qkey_f = 218

abbrev pub ib_cpi_redirect_sl_f : ℕ
ib_cpi_redirect_sl_f = 213

abbrev pub ib_sa_attroffs_f : ℕ
ib_sa_attroffs_f = 20

abbrev pub ib_sa_rmpp_vers_f : ℕ
ib_sa_rmpp_vers_f = 147

abbrev pub ib_sa_rmpp_type_f : ℕ
ib_sa_rmpp_type_f = 148

abbrev pub ib_sa_rmpp_resp_f : ℕ
ib_sa_rmpp_resp_f = 149

abbrev pub ib_sa_rmpp_flags_f : ℕ
ib_sa_rmpp_flags_f = 150

abbrev pub ib_sa_rmpp_status_f : ℕ
ib_sa_rmpp_status_f = 151

abbrev pub ib_sa_rmpp_d1_f : ℕ
ib_sa_rmpp_d1_f = 152

abbrev pub ib_sa_rmpp_d2_f : ℕ
ib_sa_rmpp_d2_f = 154

abbrev pub ib_node_type_f : ℕ
ib_node_type_f = 77

abbrev pub ib_node_nports_f : ℕ
ib_node_nports_f = 78

abbrev pub ib_node_system_guid_f : ℕ
ib_node_system_guid_f = 79

abbrev pub ib_node_guid_f : ℕ
ib_node_guid_f = 80

abbrev pub ib_node_port_guid_f : ℕ
ib_node_port_guid_f = 81

abbrev pub ib_node_devid_f : ℕ
ib_node_devid_f = 83

abbrev pub ib_node_local_port_f : ℕ
ib_node_local_port_f = 85

abbrev pub ib_node_vendorid_f : ℕ
ib_node_vendorid_f = 86

abbrev pub ib_port_lid_f : ℕ
ib_port_lid_f = 29

abbrev pub ib_port_lmc_f : ℕ
ib_port_lmc_f = 43

abbrev pub ib_port_capmask_f : ℕ
ib_port_capmask_f = 31

abbrev pub ib_port_local_port_f : ℕ
ib_port_local_port_f = 34

abbrev pub ib_port_phys_state_f : ℕ
ib_port_phys_state_f = 40

abbrev pub ib_port_state_f : ℕ
ib_port_state_f = 39

abbrev pub ib_port_link_speed_active_f : ℕ
ib_port_link_speed_active_f = 44

abbrev pub ib_port_link_speed_ext_active_f : ℕ
ib_port_link_speed_ext_active_f = 324

abbrev pub ib_sw_enhanced_port0_f : ℕ
ib_sw_enhanced_port0_f = 104

abbrev pub ib_pc_vl15_dropped_f : ℕ
ib_pc_vl15_dropped_f = 135

abbrev pub ib_pc_qp1_drop_f : ℕ
ib_pc_qp1_drop_f = 659

abbrev pub ib_port_ext_edr_fec_mode_enabled_f : ℕ
ib_port_ext_edr_fec_mode_enabled_f = 621

abbrev pub ib_port_ext_hdr_fec_mode_supported_f : ℕ
ib_port_ext_hdr_fec_mode_supported_f = 660

abbrev pub ib_port_ext_hdr_fec_mode_enabled_f : ℕ
ib_port_ext_hdr_fec_mode_enabled_f = 661

abbrev pub ib_gid_prefix_f : ℕ
ib_gid_prefix_f = 1

abbrev pub ib_gid_guid_f : ℕ
ib_gid_guid_f = 2

abbrev pub ib_port_gid_prefix_f : ℕ
ib_port_gid_prefix_f = 28

abbrev pub ib_port_smlid_f : ℕ
ib_port_smlid_f = 30

abbrev pub ib_port_smsl_f : ℕ
ib_port_smsl_f = 47

abbrev pub ib_pc_port_select_f : ℕ
ib_pc_port_select_f = 121

abbrev pub ib_pc_counter_select_f : ℕ
ib_pc_counter_select_f = 122

abbrev pub ib_pc_counter_select2_f : ℕ
ib_pc_counter_select2_f = 132

abbrev pub ib_pc_ext_counter_select2_f : ℕ
ib_pc_ext_counter_select2_f = 643

abbrev pub ib_sa_pr_dgid_f : ℕ
ib_sa_pr_dgid_f = 161

abbrev pub ib_sa_pr_sgid_f : ℕ
ib_sa_pr_sgid_f = 162

abbrev pub ib_sa_pr_dlid_f : ℕ
ib_sa_pr_dlid_f = 163

abbrev pub ib_sa_pr_sl_f : ℕ
ib_sa_pr_sl_f = 166

abbrev pub ib_sa_nr_port_guid_f : ℕ
ib_sa_nr_port_guid_f = 590
