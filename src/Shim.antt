-- ===== src/Shim.antt =====
-- The state of the shim (native/soemshim/soem_shim.h and the static variable of soem_shim.c), and
-- the monad that its functions run in. `none` is a fault: behaviour that C leaves undefined, such
-- as an access outside a block, through NULL or after `free`, or an `int` that overflows.
pub mod Log
pub mod Pdo
pub mod Exchange
pub mod Recover
pub mod Linux
pub mod Init
pub mod Info
pub mod Api
pub mod Staging
pub mod Runs
pub mod Mapped
use Prim.Native.String.{String}
use xeryon_ether_cat.Base.{
  ℕ, zero, suc, ℤ, pos, negsuc, ◌-◌, ◌==◌, Option, none, some, Bool, List, ◌∷◌, ◌+◌, ◌*◌, ◌^◌, ltb,
  leb, if◌then◌else◌,
}
use xeryon_ether_cat.Soem.{Slave, Group, Context, Net, ec_maxslave}

-- `soem_log_level_t`
pub data LogLevel : Type 0 where
  info warn err : LogLevel

-- A line of the log: its level and what the callback gets.
pub record LogLine : Type 0 where
  pub level : LogLevel
  pub message : String

-- The calls of SOEM that were made. `send` has what it returned; `receive` its timeout and what it
-- returned; `state_check` the slave, the state that was waited for, the timeout and the state that
-- was found; `write_state` the slave and the state that its entry asks for.
pub data Call : Type 0 where
  open_port close_port config_init map_group config_dc read_state error_list : Call
  send : ℤ → Call
  receive : ℤ → ℤ → Call
  state_check : ℕ → ℕ → ℤ → ℕ → Call
  write_state : ℕ → ℕ → Call
  sleep : ℕ → Call

-- `soem_handle_t`, but for `IOmap`.
pub record Handle : Type 0 where
  pub context : Context
  pub output_length : ℤ
  pub input_length : ℤ
  pub last_wkc : ℤ
  pub last_expected_wkc : ℤ

-- The block behind `handle->IOmap`: `size` is 0 while the pointer is NULL.
pub record IoMap : Type 0 where
  pub size : ℕ
  pub byte : ℕ → ℕ

-- One handle with its blocks, and what is outside: `allocated` is false before the handle's block
-- is allocated and after it is freed; `log` and `calls` have the newest entry first.
pub record St (X : Type 0) : Type 0 where
  pub handle : Handle
  pub allocated : Bool
  pub iomap : IoMap
  pub bus : X
  pub port_open : Bool
  pub log_cb : Bool
  pub log : List LogLine
  pub calls : List Call

-- A pointer argument whose block is the state's handle, or NULL.
pub data Pointer : Type 0 where
  null valid : Pointer

-- `SOEM_ERR_BAD_ARGS`, `SOEM_ERR_SEND_FAIL`, `SOEM_ERR_RECV_FAIL` and `SOEM_ERR_WKC_LOW`
abbrev pub bad_args : ℤ
bad_args = negsuc 12

abbrev pub send_fail : ℤ
send_fail = negsuc 10

abbrev pub recv_fail : ℤ
recv_fail = negsuc 11

abbrev pub wkc_low : ℤ
wkc_low = negsuc 9

abbrev pub M : Type 0 → Type 0 → Type 0
M X A = St X → Option (A × St X)

abbrev pub pure : {X A : Type 0} → A → M X A
pure a s = some (a, s)

abbrev pub after : {X A B : Type 0} → Option (A × St X) → (A → M X B) → Option (B × St X)
after none f = none
after (some (a, s)) f = f a s

infixl 5 ◌>>=◌ ◌>>◌
abbrev pub ◌>>=◌ : {X A B : Type 0} → M X A → (A → M X B) → M X B
◌>>=◌ m f s = after (m s) f

abbrev pub ◌>>◌ : {X B : Type 0} → M X (Unit {0}) → M X B → M X B
m >> k = m >>= λ _. k

-- `slavelist[i].state = st`
abbrev pub set_state : ℕ → ℕ → Context → Context
set_state i st c = record c {
  slavelist = λ j. if i == j then record (c.slavelist j) { state = st } else c.slavelist j;
}

module _ {X : Type 0} where
  -- A read of the handle's block.
  abbrev pub get_handle : M X Handle
  get_handle s = if s.allocated then some (s.handle, s) else none

  abbrev pub set_handle : Handle → M X (Unit {0})
  set_handle h s = if s.allocated then some (tt, record s { handle = h }) else none

  abbrev pub get_context : M X Context
  get_context s = if s.allocated then some (s.handle.context, s) else none

  abbrev pub with_context : St X → Context → St X
  with_context s c = record s { handle = record s.handle { context = c } }

  abbrev pub get_group : M X Group
  get_group s = if s.allocated then some (s.handle.context.group, s) else none

  -- `slavelist[i]`, inside the array.
  abbrev pub get_slave : ℕ → M X Slave
  get_slave i s =
      if s.allocated
      then (if ltb i ec_maxslave then some (s.handle.context.slavelist i, s) else none)
      else none

  abbrev pub put_slave_state : ℕ → ℕ → M X (Unit {0})
  put_slave_state i st s =
      if s.allocated
      then (if ltb i ec_maxslave
          then some (tt, with_context s (set_state i st s.handle.context))
          else none)
      else none

  -- Whether a pointer of the context is NULL is tested before it is used.
  abbrev pub deref : Option ℕ → M X ℕ
  deref none s = none
  deref (some at) s = some (at, s)

  -- The `n` bytes at `at`, which must lie inside the IO map, by their offsets from `at`.
  abbrev pub view : ℕ → ℕ → M X (ℕ → ℕ)
  view at n s = if leb (at + n) s.iomap.size then some ((λ k. s.iomap.byte (at + k)), s) else none

  abbrev pub net_of : St X → Net X
  net_of s = record { context = s.handle.context; byte = s.iomap.byte; bus = s.bus }

  abbrev pub after_call : Call → St X → Net X → St X
  after_call c s n = record s {
    handle = record s.handle { context = n.context };
    iomap = record s.iomap { byte = n.byte };
    bus = n.bus;
    calls = c ∷ s.calls;
  }

  -- A call of SOEM, which reads the handle's block.
  abbrev pub soem_call : {A : Type 0} → (A → Call) → (Net X → A × Net X) → M X A
  soem_call c f s =
      if s.allocated then (let r = f (net_of s) in some (r.0, after_call (c r.0) s r.1)) else none

  abbrev pub soem_do : Call → (Net X → Net X) → M X (Unit {0})
  soem_do c f s = if s.allocated then some (tt, after_call c s (f (net_of s))) else none

-- `a * b` on `int`; an overflow is a fault.
abbrev pub mul_int : {X : Type 0} → ℤ → ℕ → M X ℤ
mul_int (pos n) b s = if ltb (n * b) (2 ^ 31) then some (pos (n * b), s) else none
mul_int (negsuc n) zero s = some (pos 0, s)
mul_int (negsuc n) (suc b) s =
    if leb (suc n * suc b) (2 ^ 31) then some (negsuc (suc n * suc b - 1), s) else none
