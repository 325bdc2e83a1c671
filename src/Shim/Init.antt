-- ===== src/Shim/Init.antt =====
-- `soem_initialize` and `soem_shutdown` of soem_shim.c.
pub mod Lifecycle
pub mod Resources
pub mod Start
pub mod Nops
pub mod Idle
pub mod Succeeds
use Prim.Native.String.{String}
use xeryon_ether_cat.Base.{
  ℕ, zero, suc, ℤ, pos, negsuc, Bool, true, false, Option, none, some, List, [], ◌∷◌, ◌+◌, ◌*◌, ltb,
  ltb_ℤ, leb_ℤ, ◌==ℤ◌, pos_part, replicate, signed32, if◌then◌else◌,
}
use xeryon_ether_cat.Soem.{Slave, Group, Context, Net, Platform, ec_timeoutstate, ec_maxname}
use xeryon_ether_cat.Soem.SlaveFields.{zero_setup, zero_mailbox}
use xeryon_ether_cat.Soem.EcState
use xeryon_ether_cat.Shim.{
  St, M, Handle, IoMap, Pointer, null, valid, Call, pure, ◌>>=◌, ◌>>◌, get_handle, set_handle,
  get_context, get_group, soem_call, soem_do,
}
use xeryon_ether_cat.Shim.Log.{log_info, log_err}
use xeryon_ether_cat.Shim.Pdo.{DriveRxPdo, DriveTxPdo, soem_write_rxpdo, soem_read_txpdo}
use xeryon_ether_cat.Shim.Exchange.{soem_exchange_process_data}
use xeryon_ether_cat.Shim.Recover.{check_state, write_state}

-- `size_t iomap_size = 64 * 1024`
abbrev pub iomap_size : ℕ
iomap_size = 64 * 1024

-- What `calloc` leaves in the handle.
abbrev pub zero_slave : Slave
zero_slave = record {
  state = 0;
  al_status_code = 0;
  eep_man = 0;
  eep_id = 0;
  eep_rev = 0;
  obytes = 0;
  outputs = none;
  ibytes = 0;
  inputs = none;
  islost = 0;
  name = replicate (ec_maxname + 1) 0;
  setup = zero_setup;
  mailbox = zero_mailbox;
}

abbrev pub zero_context : Context
zero_context = record {
  slavelist = λ i. zero_slave;
  slavecount = pos 0;
  group = record {
    obytes = 0;
    outputs = none;
    ibytes = 0;
    inputs = none;
    outputs_wkc = 0;
    inputs_wkc = 0;
  };
}

-- The handle as the first lines of `soem_initialize` leave it.
abbrev pub new_handle : Handle
new_handle = record {
  context = zero_context;
  output_length = pos 0;
  input_length = pos 0;
  last_wkc = negsuc 0;
  last_expected_wkc = pos 0;
}

-- `DriveRxPDO rx = { 0 }; memcpy(rx.Command, "NOP", 3);`
abbrev pub nop : DriveRxPdo
nop = record {
  command = b'N' ∷ b'O' ∷ b'P' ∷ replicate 29 0;
  parameter = pos 0;
  velocity = 0;
  acceleration = 0;
  deceleration = 0;
  execute = 0;
}

-- `DriveTxPDO tx = { 0 }`
abbrev pub zero_txpdo : DriveTxPdo
zero_txpdo = record {
  actual_position = pos 0;
  amplifiers_enabled = 0;
  end_stop = 0;
  thermal_protection1 = 0;
  thermal_protection2 = 0;
  force_zero = 0;
  motor_on = 0;
  closed_loop = 0;
  encoder_index = 0;
  encoder_valid = 0;
  searching_index = 0;
  position_reached = 0;
  error_compensation = 0;
  encoder_error = 0;
  scanning = 0;
  left_end_stop = 0;
  right_end_stop = 0;
  error_limit = 0;
  searching_optimal_frequency = 0;
  safety_timeout = 0;
  execute_ack = 0;
  emergency_stop = 0;
  position_fail = 0;
  slot = 0;
}

module _ {X : Type 0} where
  -- `free(handle)`, of a block that is allocated.
  abbrev pub free_handle : M X (Unit {0})
  free_handle s = if s.allocated then some (tt, record s { allocated = false }) else none

  -- `free(handle->IOmap)`, after which the map has no bytes. A second one of the same handle would be
  -- undefined in C and is not told from the first here.
  abbrev pub free_iomap : M X (Unit {0})
  free_iomap s =
      if s.allocated then some (tt, record s { iomap = record s.iomap { size = 0 } }) else none

  abbrev pub set_port_open : Bool → M X (Unit {0})
  set_port_open b s = some (tt, record s { port_open = b })

module _ {X : Type 0} ⦃p : Platform X⦄ where
  -- `ecx_close`
  abbrev pub close_port : M X (Unit {0})
  close_port = do soem_do Call.close_port p.ecx_close; set_port_open false

  -- An exit before the IO map is allocated.
  pub fail_early : String → M X Pointer
  fail_early message = do log_err message; close_port; free_handle; pure null

  -- An exit behind that.
  pub fail_late : String → M X Pointer
  fail_late message = do log_err message; close_port; free_iomap; free_handle; pure null

  -- "Stage outputs (NOP, Execute=0) into IOmap", from slave `i` on.
  pub stage_nops : ℕ → ℕ → M X (Unit {0})
  stage_nops zero i s = pure tt s
  stage_nops (suc left) i s =
      (do
        written ← soem_write_rxpdo valid (pos i) (some nop)
        if written ==ℤ pos 0 then log_err "write_rxpdo failed for slave %d" else pure tt
        stage_nops left (i + 1))
        s

  -- "Now read inputs that were received", from slave `i` on.
  pub read_inputs : ℕ → ℕ → M X (Unit {0})
  read_inputs zero i s = pure tt s
  read_inputs (suc left) i s =
      (do
        (rc, tx) ← soem_read_txpdo valid (pos i) (some zero_txpdo)
        if rc ==ℤ pos 0 then pure tt else log_info "Slave %d ActualPosition=%d"
        read_inputs left (i + 1))
        s

  -- "One actual bus cycle (send+recv)", on the staged IO map.
  pub probe_bus : M X (Unit {0})
  probe_bus = do
    (rc, inputs) ← soem_exchange_process_data valid none (pos 0) none (pos 0) (pos 2000)
    if ltb_ℤ rc (pos 0) then log_err "probe exchange failed rc=%d" else pure tt

  -- The way to OPERATIONAL.
  pub go_operational : M X (Unit {0})
  go_operational = do
    safe ← check_state 0 EcState.safe_op (pos (ec_timeoutstate * 4))
    write_state 0 EcState.operational
    op ← check_state 0 EcState.operational (pos ec_timeoutstate)
    pure tt

  -- `handle->output_length = (int)group->Obytes;` and the same for the inputs
  pub set_lengths : M X (Unit {0})
  set_lengths = do
    g ← get_group
    h ← get_handle
    set_handle (record h { output_length = signed32 g.obytes; input_length = signed32 g.ibytes })

  -- What follows a mapping that fits.
  pub start_bus : M X Pointer
  start_bus = do
    soem_do Call.config_dc p.ecx_configdc
    c ← get_context
    stage_nops (pos_part c.slavecount) 1
    probe_bus
    read_inputs (pos_part c.slavecount) 1
    go_operational
    set_lengths
    pure valid

  -- What follows the allocation of the IO map.
  pub map_bus : M X Pointer
  map_bus = do
    actual_size ← soem_call (λ _. Call.map_group) p.ecx_config_map_group
    if leb_ℤ actual_size (pos 0)
        then fail_late "ecx_config_map_group failed: rc=%d"
        else (if ltb iomap_size (pos_part actual_size)
            then fail_late
                "ecx_config_map_group: actual IOmap size (%d) exceeds allocated size (%zu). Aborting to prevent memory corruption."
            else start_bus)

  -- What follows the discovery of the slaves; the IO map is cleared.
  pub allocate_iomap : M X Pointer
  allocate_iomap s =
      if p.malloc s.bus iomap_size
      then map_bus (record s { iomap = record { size = iomap_size; byte = λ a. 0 } })
      else fail_early "IOmap allocation failed (size=%zu)" s

  -- What follows the opening of the interface.
  pub find_slaves : M X Pointer
  find_slaves = do
    slave_count ← soem_call (λ _. Call.config_init) p.ecx_config_init
    if leb_ℤ slave_count (pos 0)
        then fail_early "ecx_config_init failed: no slaves found or error (rc=%d)"
        else allocate_iomap

  -- What follows the allocation of the handle.
  pub open_interface : Option String → M X Pointer
  open_interface ifname = do
    opened ← soem_call (λ _. Call.open_port) (p.ecx_init ifname)
    if opened ==ℤ pos 0
        then (do log_err "ecx_init failed for interface '%s'"; free_handle; pure null)
        else (do set_port_open true; find_slaves)

  -- `soem_initialize`; the handle that it allocates is that of the state.
  pub soem_initialize : Option String → M X Pointer
  soem_initialize ifname s =
      if p.malloc s.bus p.handle_size
      then open_interface ifname (record s { handle = new_handle; allocated = true })
      else some (null, s)

  pub soem_shutdown : Pointer → M X (Unit {0})
  soem_shutdown null = pure tt
  soem_shutdown valid = do write_state 0 EcState.init; close_port; free_iomap; free_handle
