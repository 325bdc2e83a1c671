-- ===== src/Soem.antt =====
-- The part of SOEM that the shim reads and writes (native/SOEM-2.0.0/include/soem/ec_main.h and
-- ec_options.h): the context, its slaves and its process-data group. The bodies of the functions of
-- SOEM are not in the repository, so `Platform` takes them, with the two functions of the C library
-- whose outcome the shim tests, as an interface.
pub mod EcState
pub mod Mapping
pub mod SlaveFields
use Prim.Native.String.{String}
use xeryon_ether_cat.Soem.SlaveFields.{SlaveSetup, SlaveMailbox}
use xeryon_ether_cat.Base.{ℕ, ℤ, Option, Bool, List, ◌*◌, ◌+◌}

-- `EC_MAXNAME`: the longest name of a slave, without its final NUL.
abbrev pub ec_maxname : ℕ
ec_maxname = 40

-- `EC_MAXSLAVE`: the length of `slavelist`.
abbrev pub ec_maxslave : ℕ
ec_maxslave = 200

-- `EC_TIMEOUTSTATE`, in microseconds.
abbrev pub ec_timeoutstate : ℕ
ec_timeoutstate = 2000000

-- `ec_slavet`: the fields that the shim uses, and those that SOEM keeps for itself. A pointer into the IO map is an offset in it, and
-- `none` is NULL; `name` is the 41 characters of the array.
pub record Slave : Type 0 where
  pub state : ℕ
  pub al_status_code : ℕ
  pub eep_man : ℕ
  pub eep_id : ℕ
  pub eep_rev : ℕ
  pub obytes : ℕ
  pub outputs : Option ℕ
  pub ibytes : ℕ
  pub inputs : Option ℕ
  pub islost : ℕ
  pub name : List ℕ
  pub setup : SlaveSetup
  pub mailbox : SlaveMailbox

-- The fields of `ec_groupt` that the shim uses.
pub record Group : Type 0 where
  pub obytes : ℕ
  pub outputs : Option ℕ
  pub ibytes : ℕ
  pub inputs : Option ℕ
  pub outputs_wkc : ℕ
  pub inputs_wkc : ℕ

-- `ec_adapter`, without `next`.
pub record Adapter : Type 0 where
  pub name : List ℕ
  pub desc : List ℕ

-- `ecx_contextt`: `slavelist` by its index (0 stands for all slaves), `slavecount`, and
-- `grouplist[0]`, the one group that the shim uses.
pub record Context : Type 0 where
  pub slavelist : ℕ → Slave
  pub slavecount : ℤ
  pub group : Group

-- What a function of SOEM can change: the context, the bytes of the IO map that the context points
-- into, and `bus`, all that the shim never looks at: the rest of the context, the network card and
-- the slaves on the wire.
pub record Net (X : Type 0) : Type 0 where
  pub context : Context
  pub byte : ℕ → ℕ
  pub bus : X

-- The functions that the shim calls and that are not in the repository.
pub record Platform (X : Type 0) : Type 0 where
  pub ecx_init : Option String → Net X → ℤ × Net X
  pub ecx_close : Net X → Net X
  pub ecx_config_init : Net X → ℤ × Net X
  -- group 0, into an IO map of the shim
  pub ecx_config_map_group : Net X → ℤ × Net X
  pub ecx_configdc : Net X → Net X
  pub ecx_send_processdata : Net X → ℤ × Net X
  -- the timeout in microseconds
  pub ecx_receive_processdata : ℤ → Net X → ℤ × Net X
  -- a slave, the state that is waited for, the timeout in microseconds
  pub ecx_statecheck : ℕ → ℕ → ℤ → Net X → ℕ × Net X
  pub ecx_writestate : ℕ → Net X → Net X
  pub ecx_readstate : Net X → Net X
  -- the errors as one text, with no final NUL; `none` is NULL
  pub ecx_elist2string : Net X → Option (List ℕ) × Net X
  pub osal_usleep : ℕ → Net X → Net X
  -- whether `malloc` or `calloc` of so many bytes succeeds
  pub malloc : X → ℕ → Bool
  -- `sizeof(soem_handle_t)`
  pub handle_size : ℕ
  -- what `vsnprintf` returns for a format whose arguments are at hand and a buffer of a size, and
  -- the text that it leaves in the buffer
  pub vsnprintf : X → String → ℕ → ℤ × String
  -- the list that `ec_find_adapters` makes; `next` links its elements
  pub ec_find_adapters : X → List Adapter
