-- ===== src/Soem/SlaveFields.antt =====
-- The fields of `ec_slavet` that SOEM keeps for itself (native/SOEM-2.0.0/include/soem/ec_main.h),
-- which lie in the shim's handle with the others.
use xeryon_ether_cat.Base.{ℕ, ℤ, pos, Bool, false, Option, none, List, replicate}

-- `EC_MAXSM` and `EC_MAXFMMU`: the lengths of the two arrays.
abbrev pub ec_maxsm : ℕ
ec_maxsm = 8

abbrev pub ec_maxfmmu : ℕ
ec_maxfmmu = 4

-- `ec_smt`
pub record SyncManager : Type 0 where
  pub start_addr : ℕ
  pub sm_length : ℕ
  pub sm_flags : ℕ

-- `ec_fmmut`
pub record Fmmu : Type 0 where
  pub log_start : ℕ
  pub log_length : ℕ
  pub log_startbit : ℕ
  pub log_endbit : ℕ
  pub phys_start : ℕ
  pub phys_start_bit : ℕ
  pub fmmu_type : ℕ
  pub fmmu_active : ℕ
  pub unused1 : ℕ
  pub unused2 : ℕ

-- How a slave is configured: its addresses, the sync managers and FMMUs, the topology of the bus, the
-- distributed clock, and whether a configuration function is registered.
pub record SlaveSetup : Type 0 where
  pub configadr : ℕ
  pub aliasadr : ℕ
  pub eep_ser : ℕ
  pub itype : ℕ
  pub dtype : ℕ
  pub obits : ℕ
  pub ooffset : ℕ
  pub ostartbit : ℕ
  pub ibits : ℕ
  pub ioffset : ℕ
  pub istartbit : ℕ
  pub sync_managers : List SyncManager
  pub sync_manager_types : List ℕ
  pub fmmus : List Fmmu
  pub fmmu0func : ℕ
  pub fmmu1func : ℕ
  pub fmmu2func : ℕ
  pub fmmu3func : ℕ
  pub mbx_l : ℕ
  pub mbx_wo : ℕ
  pub mbx_rl : ℕ
  pub mbx_ro : ℕ
  pub mbx_proto : ℕ
  pub mbx_cnt : ℕ
  pub hasdc : ℕ
  pub ptype : ℕ
  pub topology : ℕ
  pub activeports : ℕ
  pub consumedports : ℕ
  pub parent : ℕ
  pub parentport : ℕ
  pub entryport : ℕ
  pub dcrt_a : ℤ
  pub dcrt_b : ℤ
  pub dcrt_c : ℤ
  pub dcrt_d : ℤ
  pub pdelay : ℤ
  pub dc_next : ℕ
  pub dc_previous : ℕ
  pub dc_cycle : ℤ
  pub dc_shift : ℤ
  pub dc_active : ℕ
  pub sii_index : ℕ
  pub eep_8byte : ℕ
  pub eep_pdi : ℕ
  pub coe_details : ℕ
  pub foe_details : ℕ
  pub eoe_details : ℕ
  pub soe_details : ℕ
  pub ebuscurrent : ℤ
  pub block_lrw : ℕ
  pub group : ℕ
  pub fmmu_unused : ℕ
  pub po2so_config : Bool

-- The state of a slave's mailboxes. A pointer is an address, and `none` is NULL.
pub record SlaveMailbox : Type 0 where
  pub mbxhandlerstate : ℤ
  pub mbxrmpstate : ℤ
  pub mbxinstateex : ℕ
  pub coembxin : Option ℕ
  pub coembxinfull : ℕ
  pub coembxoverrun : ℤ
  pub soembxin : Option ℕ
  pub soembxinfull : ℕ
  pub soembxoverrun : ℤ
  pub foembxin : Option ℕ
  pub foembxinfull : ℕ
  pub foembxoverrun : ℤ
  pub eoembxin : Option ℕ
  pub eoembxinfull : ℕ
  pub eoembxoverrun : ℤ
  pub voembxin : Option ℕ
  pub voembxinfull : ℕ
  pub voembxoverrun : ℤ
  pub aoembxin : Option ℕ
  pub aoembxinfull : ℕ
  pub aoembxoverrun : ℤ
  pub mbxstatus : Option ℕ

-- What `calloc` leaves in them.
abbrev pub zero_sync_manager : SyncManager
zero_sync_manager = record { start_addr = 0; sm_length = 0; sm_flags = 0 }

abbrev pub zero_fmmu : Fmmu
zero_fmmu = record {
  log_start = 0;
  log_length = 0;
  log_startbit = 0;
  log_endbit = 0;
  phys_start = 0;
  phys_start_bit = 0;
  fmmu_type = 0;
  fmmu_active = 0;
  unused1 = 0;
  unused2 = 0;
}

abbrev pub zero_setup : SlaveSetup
zero_setup = record {
  configadr = 0;
  aliasadr = 0;
  eep_ser = 0;
  itype = 0;
  dtype = 0;
  obits = 0;
  ooffset = 0;
  ostartbit = 0;
  ibits = 0;
  ioffset = 0;
  istartbit = 0;
  sync_managers = replicate ec_maxsm zero_sync_manager;
  sync_manager_types = replicate ec_maxsm 0;
  fmmus = replicate ec_maxfmmu zero_fmmu;
  fmmu0func = 0;
  fmmu1func = 0;
  fmmu2func = 0;
  fmmu3func = 0;
  mbx_l = 0;
  mbx_wo = 0;
  mbx_rl = 0;
  mbx_ro = 0;
  mbx_proto = 0;
  mbx_cnt = 0;
  hasdc = 0;
  ptype = 0;
  topology = 0;
  activeports = 0;
  consumedports = 0;
  parent = 0;
  parentport = 0;
  entryport = 0;
  dcrt_a = pos 0;
  dcrt_b = pos 0;
  dcrt_c = pos 0;
  dcrt_d = pos 0;
  pdelay = pos 0;
  dc_next = 0;
  dc_previous = 0;
  dc_cycle = pos 0;
  dc_shift = pos 0;
  dc_active = 0;
  sii_index = 0;
  eep_8byte = 0;
  eep_pdi = 0;
  coe_details = 0;
  foe_details = 0;
  eoe_details = 0;
  soe_details = 0;
  ebuscurrent = pos 0;
  block_lrw = 0;
  group = 0;
  fmmu_unused = 0;
  po2so_config = false;
}

abbrev pub zero_mailbox : SlaveMailbox
zero_mailbox = record {
  mbxhandlerstate = pos 0;
  mbxrmpstate = pos 0;
  mbxinstateex = 0;
  coembxin = none;
  coembxinfull = 0;
  coembxoverrun = pos 0;
  soembxin = none;
  soembxinfull = 0;
  soembxoverrun = pos 0;
  foembxin = none;
  foembxinfull = 0;
  foembxoverrun = pos 0;
  eoembxin = none;
  eoembxinfull = 0;
  eoembxoverrun = pos 0;
  voembxin = none;
  voembxinfull = 0;
  voembxoverrun = pos 0;
  aoembxin = none;
  aoembxinfull = 0;
  aoembxoverrun = pos 0;
  mbxstatus = none;
}
