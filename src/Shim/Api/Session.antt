-- ===== src/Shim/Api/Session.antt =====
-- What a caller may ask of an open handle through the exported functions, and what an
-- implementation of them owes the caller.
use Prim.Native.String.{String}
use xeryon_ether_cat.Base.{ℕ, ℤ, pos_part, Option, some, List, [], ◌∷◌, ◌≤◌, length}
use xeryon_ether_cat.Shim.{St, M, valid, pure, ◌>>=◌}
use xeryon_ether_cat.Shim.Mapped.{IsMapped}
use xeryon_ether_cat.Shim.Runs.{Runs, Stays}
use xeryon_ether_cat.Shim.Pdo.{DriveRxPdo, DriveTxPdo}
use xeryon_ether_cat.Shim.Pdo.Image.{IsRxPdo}
use xeryon_ether_cat.Shim.Exchange.Buffers.{Fits}
use xeryon_ether_cat.Shim.Recover.Steps.{IsTimeout}
use xeryon_ether_cat.Shim.Info.{SlaveInfo, Health}
use xeryon_ether_cat.Shim.Init.Resources.{Released, Outcome}
use xeryon_ether_cat.Shim.Api.{Api}

-- A call on an open handle, with its other arguments.
pub data Request : Type 0 where
  count : Request
  sizes : ℤ → ℤ → Request
  scan : List SlaveInfo → ℤ → Request
  read : ℤ → DriveTxPdo → Request
  write : ℤ → DriveRxPdo → Request
  exchange : Option (List ℕ) → ℤ → Option (List ℕ) → ℤ → ℤ → Request
  recover : ℤ → Request
  drain : List ℕ → ℤ → Request
  health : Health → Request

-- The buffers are as large as the caller says, a command is one that its struct can hold, and the
-- timeout of a recovery can be taken to microseconds.
abbrev pub IsRequest : Request → Type 0
IsRequest count = Unit
IsRequest (sizes outputs inputs) = Unit
IsRequest (scan buffer max_count) = pos_part max_count ≤ length buffer
IsRequest (read i old) = Unit
IsRequest (write i rx) = IsRxPdo rx
IsRequest (exchange outputs outputs_len inputs inputs_len timeout_us) =
    Fits outputs outputs_len × Fits inputs inputs_len
IsRequest (recover timeout_ms) = IsTimeout timeout_ms
IsRequest (drain buf buf_sz) = pos_part buf_sz ≤ length buf
IsRequest (health old) = Unit

abbrev pub AreRequests : List Request → Type 0
AreRequests [] = Unit
AreRequests (q ∷ qs) = IsRequest q × AreRequests qs

-- The code of a call that also returns what its pointers point to.
abbrev pub code : {X B : Type 0} → M X (ℤ × B) → M X ℤ
code m = do r ← m; pure r.0

module _ {X : Type 0} (api : Api X) where
  -- The call, with what it returns.
  abbrev pub perform : Request → M X ℤ
  perform count = api.soem_get_slave_count valid
  perform (sizes outputs inputs) = do
    r ← api.soem_get_process_sizes valid (some outputs) (some inputs)
    pure r.0
  perform (scan buffer max_count) = code (api.soem_scan_slaves valid (some buffer) max_count)
  perform (read i old) = code (api.soem_read_txpdo valid i (some old))
  perform (write i rx) = api.soem_write_rxpdo valid i (some rx)
  perform (exchange outputs outputs_len inputs inputs_len timeout_us) =
      code (api.soem_exchange_process_data valid outputs outputs_len inputs inputs_len timeout_us)
  perform (recover timeout_ms) = api.soem_try_recover valid timeout_ms
  perform (drain buf buf_sz) = code (api.soem_drain_error_list valid (some buf) buf_sz)
  perform (health old) = code (api.soem_get_health valid (some old))

  -- What the functions owe their callers: none of them faults or runs for ever. Initialisation
  -- releases everything or starts the bus, shutting down releases everything, and every call in
  -- between leaves the bus mapped, with its slaves, its IO map and its port.
  pub record IsSound : Type 0 where
    pub initialize :
        (ifname : Option String) (s : St X)
        → Released s
        → Runs (api.soem_initialize ifname) s Outcome
    pub shutdown : (s : St X) → IsMapped s → Runs (api.soem_shutdown valid) s (λ _ t. Released t)
    pub call :
        (q : Request) (s : St X) → IsRequest q → IsMapped s → Runs (perform q) s (λ _ t. Stays s t)
