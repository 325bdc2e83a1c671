-- ===== src/Soem/EcState.antt =====
-- `ec_state` of native/SOEM-2.0.0/include/soem/ec_type.h: the state that a slave is in or is asked
-- for, with `ack`, which is also `error`, as a flag beside it.
use Prim.Native.Nat.{ℕ}

abbrev pub init : ℕ
init = 0x01

abbrev pub pre_op : ℕ
pre_op = 0x02

abbrev pub safe_op : ℕ
safe_op = 0x04

abbrev pub operational : ℕ
operational = 0x08

abbrev pub ack : ℕ
ack = 0x10

abbrev pub error : ℕ
error = 0x10
