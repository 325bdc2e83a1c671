-- ===== src/Shim/Info.antt =====
-- The functions of soem_shim.c that report: `soem_drain_error_list`, `soem_get_slave_count`,
-- `soem_get_process_sizes`, `soem_scan_slaves`, `soem_get_health` and `soem_get_network_adapters`.
pub mod Calls
pub mod Drain
pub mod Names
pub mod Report
use Prim.Native.String.{String}
use xeryon_ether_cat.Base.{
  ℕ, zero, suc, ℤ, pos, Bool, Option, none, some, List, [], ◌∷◌, ◌++◌, ◌+◌, ◌-◌, ◌==◌, ltb, leb,
  ltb_ℤ, leb_ℤ, pos_part, length, take, drop, replicate, signed32, if◌then◌else◌,
}
use xeryon_ether_cat.Soem.{Slave, Context, Platform, ec_maxname, Adapter}
use xeryon_ether_cat.Soem.EcState
use xeryon_ether_cat.Shim.{
  M, Pointer, null, valid, Call, pure, ◌>>=◌, ◌>>◌, get_handle, get_context, get_group, get_slave,
  soem_call, soem_do,
}
use xeryon_ether_cat.Shim.Log.{log_info, log_err}
use xeryon_ether_cat.Shim.Exchange.{expected_wkc}

-- `soem_slave_info_t`
pub record SlaveInfo : Type 0 where
  pub position : ℕ
  pub vendor_id : ℕ
  pub product_code : ℕ
  pub revision : ℕ
  pub name : List ℕ

-- `soem_health_t`
pub record Health : Type 0 where
  pub slaves_found : ℤ
  pub group_expected_wkc : ℤ
  pub last_wkc : ℤ
  pub bytes_out : ℤ
  pub bytes_in : ℤ
  pub slaves_op : ℕ
  pub al_status_code : ℕ

-- `strncpy`: up to the first NUL, and NULs behind it, `n` characters in all.
pub strncpy : ℕ → List ℕ → List ℕ
strncpy zero src = []
strncpy (suc n) [] = replicate (suc n) 0
strncpy (suc n) (zero ∷ src) = replicate (suc n) 0
strncpy (suc n) (suc c ∷ src) = suc c ∷ strncpy n src

-- What `soem_scan_slaves` puts into the buffer for a slave.
pub slave_info : ℕ → Slave → SlaveInfo
unfolding strncpy
slave_info position slave = record {
  position = position;
  vendor_id = slave.eep_man;
  product_code = slave.eep_id;
  revision = slave.eep_rev;
  name = strncpy ec_maxname slave.name ++ 0 ∷ [];
}

-- `soem_get_slave_count`
abbrev pub soem_get_slave_count : {X : Type 0} → Pointer → M X ℤ
soem_get_slave_count null = pure (pos 0)
soem_get_slave_count valid = do c ← get_context; pure c.slavecount

-- `soem_get_process_sizes`: what the two pointers point to, `none` for NULL, comes back as it is
-- left.
pub soem_get_process_sizes :
    {X : Type 0} → Pointer → Option ℤ → Option ℤ → M X (ℤ × Option ℤ × Option ℤ)
soem_get_process_sizes null outputs inputs = pure (pos 0, outputs, inputs)
soem_get_process_sizes valid none inputs = pure (pos 0, none, inputs)
soem_get_process_sizes valid (some old) none = pure (pos 0, some old, none)
soem_get_process_sizes valid (some old) (some old_in) = do
  h ← get_handle
  pure (pos 1, some h.output_length, some h.input_length)

-- The loop of `soem_scan_slaves` from the element `i` on, of which `buffer` is the tail of the
-- caller's array. An element that is not there is a fault.
pub scan_from : {X : Type 0} → ℕ → ℕ → List SlaveInfo → M X (List SlaveInfo)
scan_from zero i buffer s = pure buffer s
scan_from (suc left) i [] s = none
scan_from (suc left) i (old ∷ buffer) s =
    (do
      slave ← get_slave (i + 1)
      rest ← scan_from left (i + 1) buffer
      pure (slave_info (i + 1) slave ∷ rest))
      s

-- `soem_scan_slaves`: `none` is a NULL buffer.
pub soem_scan_slaves :
    {X : Type 0} → Pointer → Option (List SlaveInfo) → ℤ → M X (ℤ × Option (List SlaveInfo))
soem_scan_slaves null buffer max_count = pure (pos 0, buffer)
soem_scan_slaves valid none max_count = pure (pos 0, none)
soem_scan_slaves valid (some buffer) max_count =
    if leb_ℤ max_count (pos 0) then pure (pos 0, some buffer) else (do
      c ← get_context
      let count : ℤ = if ltb_ℤ max_count c.slavecount then max_count else c.slavecount
      filled ← scan_from (pos_part count) 0 buffer
      pure (count, some filled))

-- The loop of `soem_get_health` from slave `i` on, with the count so far.
pub count_op : {X : Type 0} → ℕ → ℕ → ℕ → M X ℕ
count_op zero i op s = pure op s
count_op (suc left) i op s =
    (do
      slave ← get_slave i
      count_op left (i + 1) (if slave.state == EcState.operational then op + 1 else op))
      s

-- "best-effort AL status from first slave"
abbrev pub first_status : {X : Type 0} → M X ℕ
first_status = do
  c ← get_context
  if leb_ℤ (pos 1) c.slavecount then (do slave ← get_slave 1; pure slave.al_status_code) else pure 0

module _ {X : Type 0} ⦃p : Platform X⦄ where
  -- `soem_get_health`: the last argument is what `out` points to, `none` for NULL, and comes back
  -- as it is left.
  unfoldable pub soem_get_health : Pointer → Option Health → M X (ℤ × Option Health)
  soem_get_health null out = pure (pos 0, out)
  soem_get_health valid none = pure (pos 0, none)
  soem_get_health valid (some old) = do
    g ← get_group
    c ← get_context
    h ← get_handle
    soem_do Call.read_state p.ecx_readstate
    after_read ← get_context
    op ← count_op (pos_part after_read.slavecount) 1 0
    status ← first_status
    pure (
      pos 1,
      some record {
        slaves_found = c.slavecount;
        group_expected_wkc = expected_wkc g;
        last_wkc = h.last_wkc;
        bytes_out = signed32 g.obytes;
        bytes_in = signed32 g.ibytes;
        slaves_op = op;
        al_status_code = status;
      },
    )

  -- The end of `soem_drain_error_list`, with what `ecx_elist2string` returned.
  pub copy_error : Option (List ℕ) → List ℕ → ℕ → M X (ℤ × Option (List ℕ))
  copy_error none buf room = do
    log_err "No error string available.\n"
    (λ s. if leb 1 (length buf) then some ((pos 1, some (0 ∷ drop 1 buf)), s) else none)
  copy_error (some error) buf room =
      let n : ℕ = if ltb (length error) (room - 1) then length error else room - 1 in
      (λ s.
        if leb (n + 1) (length buf)
        then (do
          if ltb 0 n then log_err "Drained error string: %s\n" else pure tt
          pure (pos 1, some (take n error ++ 0 ∷ drop (suc n) buf)))
            s
        else none)

  -- `soem_drain_error_list`: `none` is a NULL buffer.
  unfoldable pub soem_drain_error_list : Pointer → Option (List ℕ) → ℤ → M X (ℤ × Option (List ℕ))
  soem_drain_error_list null buf buf_sz = do
    log_err "Invalid arguments: h=%p, buf=%p, buf_sz=%d\n"
    pure (pos 0, buf)
  soem_drain_error_list valid none buf_sz = do
    log_err "Invalid arguments: h=%p, buf=%p, buf_sz=%d\n"
    pure (pos 0, none)
  soem_drain_error_list valid (some buf) buf_sz =
      if leb_ℤ buf_sz (pos 0)
      then (do log_err "Invalid arguments: h=%p, buf=%p, buf_sz=%d\n"; pure (pos 0, some buf))
      else (do
        error ← soem_call (λ _. Call.error_list) p.ecx_elist2string
        copy_error error buf (pos_part buf_sz))

  -- A line for each adapter.
  pub log_adapters : String → List Adapter → M X (Unit {0})
  log_adapters line [] s = pure tt s
  log_adapters line (adapter ∷ next) s = (do log_info line; log_adapters line next) s

  -- `soem_get_network_adapters`
  pub soem_get_network_adapters : M X ℤ
  soem_get_network_adapters s =
      (do
        log_info "\nAvailable adapters:"
        log_adapters "    - %s  (%s)" (p.ec_find_adapters s.bus)
        pure (pos 1))
        s
