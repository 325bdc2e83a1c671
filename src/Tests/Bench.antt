-- ===== src/Tests/Bench.antt =====
-- A bus with one drive that does what it is asked, for the tests.
use xeryon_ether_cat.Shim.Init.Succeeds.{Answers}
use xeryon_ether_cat.Shim.Init.Resources.{MapsInside, Released}
use xeryon_ether_cat.Shim.Recover.Cooperates.{Cooperates}
use xeryon_ether_cat.Shim.Linux.Stale.{KeepsStates}
use xeryon_ether_cat.Shim.Recover.Steps.{set_state-SameMapping}
use xeryon_ether_cat.Base.{
  ltb, if◌then◌else◌, ℤ, pos, negsuc, some, [], true, refl, arith, inr, false, ◌∷◌, Bool-cases, inl,
  sym, ==_iff, ◌==◌,
}
use xeryon_ether_cat.Soem.{Slave, Context, Platform}
use xeryon_ether_cat.Soem.SlaveFields.{zero_setup, zero_mailbox}
use xeryon_ether_cat.Soem.EcState
use xeryon_ether_cat.Soem.Mapping.{KeepsMapping, same_itself}
use xeryon_ether_cat.Shim.{St, set_state}
use xeryon_ether_cat.Shim.Mapped.{IsMapped}

abbrev pub drive : Slave
drive = record {
  state = EcState.operational;
  al_status_code = 0;
  eep_man = 2;
  eep_id = 3;
  eep_rev = 4;
  obytes = 20;
  outputs = some 0;
  ibytes = 8;
  inputs = some 20;
  islost = 0;
  name = [];
  setup = zero_setup;
  mailbox = zero_mailbox;
}

abbrev pub one_drive : Context
one_drive = record {
  slavelist = λ i. drive;
  slavecount = pos 1;
  group = record {
    obytes = 20;
    outputs = some 0;
    ibytes = 8;
    inputs = some 20;
    outputs_wkc = 1;
    inputs_wkc = 1;
  };
}

-- Every call leaves the context as it is but for the state that is waited for; `received` is what a
-- cycle returns.
abbrev pub bench : ℤ → Platform (Unit {0})
bench received = record {
  ecx_init = λ ifname n. (pos 1, n);
  ecx_close = λ n. n;
  ecx_config_init = λ n. (pos 1, record n { context = one_drive });
  ecx_config_map_group =
      λ n. (pos 28, record n { context = record one_drive { slavecount = n.context.slavecount } });
  ecx_configdc = λ n. n;
  ecx_send_processdata = λ n. (pos 1, n);
  ecx_receive_processdata = λ t n. (received, n);
  ecx_statecheck = λ i want t n. (want, record n { context = set_state i want n.context });
  ecx_writestate = λ i n. n;
  ecx_readstate = λ n. n;
  ecx_elist2string = λ n. (some (b'E' ∷ b'r' ∷ b'r' ∷ []), n);
  osal_usleep = λ us n. n;
  handle_size = 600000;
  malloc = λ bus size. true;
  vsnprintf = λ bus fmt n. (pos 40, if ltb 40 n then fmt else "");
  ec_find_adapters = λ bus.
      record { name = b'e' ∷ b'0' ∷ []; desc = [] } ∷ record { name = b'e' ∷ []; desc = [] } ∷ [];
}

abbrev pub running : St (Unit {0})
running = record {
  handle = record {
    context = one_drive;
    output_length = pos 20;
    input_length = pos 8;
    last_wkc = negsuc 0;
    last_expected_wkc = pos 0;
  };
  allocated = true;
  iomap = record { size = 65536; byte = λ a. a };
  bus = tt;
  port_open = true;
  log_cb = true;
  log = [];
  calls = [];
}

pub running-IsMapped : IsMapped running
running-IsMapped = record {
  live = refl;
  few = omega arith;
  outs = λ i. omega arith;
  ins = λ i. omega arith;
  group_outs = omega arith;
  group_ins = omega arith;
}

pub bench-KeepsMapping : (received : ℤ) → KeepsMapping (bench received)
bench-KeepsMapping received = record {
  close = λ n. same_itself n.context;
  configdc = λ n. same_itself n.context;
  send = λ n. same_itself n.context;
  receive = λ t n. same_itself n.context;
  statecheck = λ i want t n. set_state-SameMapping n.context i want;
  writestate = λ i n. same_itself n.context;
  readstate = λ n. same_itself n.context;
  usleep = λ us n. same_itself n.context;
  elist = λ n. same_itself n.context;
}

pub bench-KeepsStates : (received : ℤ) → KeepsStates (bench received)
bench-KeepsStates received = record {
  send = λ n j. refl;
  receive = λ t n j. refl;
  writestate = λ i n j. refl;
  statecheck_all = λ want t n j. ground arith;
}

pub bench-Cooperates : Cooperates (bench (pos 3)) (pos 3)
bench-Cooperates = record {
  reaches = λ i st t n one next. (refl, ground arith);
  statecheck = λ i want t n j. elim (Bool-cases (i == j)) [
    | inl here ↦ inl (sym ((==_iff _ _).0 here))
    | inr there ↦ inr (ground (arith, there))
  ];
  usleep = λ us n j. refl;
  group = λ t n up. refl;
  wkc = λ t n up. omega arith;
}

-- The same drive before it is OPERATIONAL.
abbrev pub waiting_drive : Slave
waiting_drive = record drive { state = EcState.safe_op }

abbrev pub waiting : St (Unit {0})
waiting = record running {
  handle = record running.handle { context = record one_drive { slavelist = λ i. waiting_drive } };
}

pub waiting-IsMapped : IsMapped waiting
waiting-IsMapped = record {
  live = refl;
  few = omega arith;
  outs = λ i. omega arith;
  ins = λ i. omega arith;
  group_outs = omega arith;
  group_ins = omega arith;
}

pub bench-MapsInside : (received : ℤ) → MapsInside (bench received)
bench-MapsInside received = record {
  few = λ n. omega arith;
  counted = λ n. omega arith;
  slavecount = λ n. refl;
  lies = λ n. inr (record {
    outs = λ i. omega arith;
    ins = λ i. omega arith;
    group_outs = omega arith;
    group_ins = omega arith;
  });
}

-- Before anything is opened.
abbrev pub fresh : St (Unit {0})
fresh = record running {
  allocated = false;
  iomap = record { size = 0; byte = λ a. 0 };
  port_open = false;
}

pub fresh-Released : Released fresh
fresh-Released = record { allocated = refl; size = refl; port_open = refl }

pub bench-Answers : Answers (bench (pos 3))
bench-Answers = record {
  malloc = λ bus size. refl;
  init = λ ifname n. refl;
  found = λ n. omega arith;
  some_data = λ n. omega arith;
  fits = λ n. omega arith;
}
