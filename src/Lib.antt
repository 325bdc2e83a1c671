-- ===== src/Lib.antt =====
-- A model of the Xeryon EtherCAT drive service: the native shim that stands before the EtherCAT
-- master SOEM, and the managed service on top of it.
--
-- The shim has two variants, native/soemshim/soem_shim.c (Windows) and
-- native/soemshim-linux/soem_shim.c (Linux), with one header, soem_shim.h. A caller opens a bus by
-- `soem_initialize`, stages a command for each drive by `soem_write_rxpdo`, runs a cycle by
-- `soem_exchange_process_data`, reads what the drives sent by `soem_read_txpdo`, and repairs the
-- bus by `soem_try_recover` when the code of a cycle says so; `soem_shutdown` closes it. They
-- share the handle: the context of SOEM with its list of slaves, the IO map that the slaves'
-- process data lies in, and the working counters of the last cycle. The service,
-- XeryonEtherCAT.Core, is such a caller: its loop takes in commands, stages them, runs a cycle,
-- follows what the drives report, and recovers or restarts the bus when cycles fail.
--
-- Files:
--   * Base and its children: arithmetic, lists, C's 32-bit integers, bits.
--   * Soem: the fields of the context, slaves and groups that the shim uses, and in SlaveFields
--     those of a slave that it leaves to SOEM, from native/SOEM-2.0.0/include/soem. The functions
--     of SOEM, and those of the C library whose outcome is used, are the fields of the
--     interface Platform: their source is not in the repository. Soem/Mapping states what they
--     leave alone: after `ecx_config_map_group` no call moves the slaves' data.
--   * Shim: the state of the shim and the monad of its functions. A function takes the state and
--     returns a value and the next state, or `none` where C leaves the behaviour undefined: an
--     access through NULL, outside of a block or after `free`, an `int` that overflows. So a
--     theorem that a function returns says that none of this happens. The state records the calls
--     of SOEM and the lines of the log, the newest first.
--   * Shim/Log: `log_message` and `soem_set_log_callback`.
--   * Shim/Pdo: `soem_read_txpdo` and `soem_write_rxpdo`. Codec and Image describe the two images
--     byte by byte and field by field; of the 32 bytes of `Command` the image has the first four.
--   * Shim/Exchange: `soem_exchange_process_data`.
--   * Shim/Recover: `soem_try_recover`, `force_full_reinit_slave` and `is_slave_really_op` of the
--     Windows shim. Cooperates says what a bus does whose slaves answer, and Up, Reaches and
--     Succeeds follow recovery on it.
--   * Shim/Linux: `soem_try_recover` of the Linux shim, in Linux/Shared the functions that it
--     shares with the Windows shim, in Linux/Types the types and codes of its header, and in
--     Linux/Contrast the two recoveries on one bus.
--   * Shim/Init: `soem_initialize` and `soem_shutdown`. Nops and Idle follow what initialisation
--     stages for the slaves, Succeeds its way on a machine and a bus that answer.
--   * Shim/Info: `soem_scan_slaves`, `soem_get_health` and the other reports.
--   * Shim/Staging: the commands of the slaves as a function, and what staging and cycles do to
--     it.
--   * Shim/Api: the functions that soem_shim.h exports as an interface, which both shims fill.
--     Session says which calls are proper and what an implementation owes its callers; Lives
--     follows callers in whatever order they call; and Sound and Callers apply it to the two
--     shims.
--   * Shim/Mapped: the invariant, that the handle is allocated, the slaves found fit the list of
--     SOEM, and all process data lies inside the IO map. Shim/Runs: rules for runs that end.
--   * Service/Client: ISoemClient and SoemClient.cs over either shim (Serves: what the service
--     relies on; Shims: that it holds over both). Service/Act: what the managed code runs in,
--     where `none` is an exception that nothing catches, or a fault in the shim.
--   * Service/Formatter: DriveStateFormatter.cs. Service/Errors: the codes of faults and of the
--     shim, and `TryDecodeError`. Service/Command: PendingCommand.cs.
--   * Service/Axis: what EthercatDriveService.cs keeps for a slave and makes of its state.
--     Resolves, Reached and Completes follow a command through a cycle, and Asked says what it
--     asks of the slave. Service/State: the fields of the service and its queue. Service/Loop: a
--     cycle of `RunIoLoopAsync`, the recovery, `InitializeAsync` and `DisposeAsync`; Lives follows
--     a service from one to the other, and Staged a command to the outputs of its slave, which
--     hold what Axis/Asked says. Others submit and cancel commands and set latches at three points
--     of a cycle: before it takes in commands, before it stages them, and before it looks at the
--     result of the exchange. A cycle has one time, in ticks of 100 ns, and events are a list. A
--     message with parts put in is its format.
--   * Service/Methods: the methods by which callers command a drive, up to `ExecuteCommandAsync`.
--     Reasons says what each stands for and when it refuses.
--   * Tests: a bus with one drive, and the theorems at concrete inputs.
--
-- Fuel: the loops over the slaves read `slavecount` in every round, as the code does, and run on
-- fuel of 200, the length of the slave list. Fewer slaves than that are found, so the fuel
-- suffices. The loops of a fixed number of rounds are recursions on that number, and the service's
-- loop is one on the list of its cycles.
--
-- Not modelled: the arguments that `vsnprintf` puts into a format, so that its text is a
-- parameter; that a caller's write to an array of the service throws behind a restart that has
-- left fewer elements; more than one handle at a time, since the functions of two handles share
-- nothing but the log callback; threads inside of the shim, since the header leaves it to the
-- caller to keep calls apart; the native sources of SOEM and Npcap; in the service the semaphores
-- of the axes, the guard against a second initialization, the log and the times in the snapshot;
-- and the C# projects that use the service.
pub mod Base
pub mod Soem
pub mod Shim
pub mod Service
mod Tests
