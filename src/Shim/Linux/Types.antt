-- ===== src/Shim/Linux/Types.antt =====
-- The types and codes of native/soemshim-linux/soem_shim.h, whose text is that of the Windows shim.
use Prim.Native.String.{String}
use xeryon_ether_cat.Base.{ℤ}
use xeryon_ether_cat.Soem.{Platform}
use xeryon_ether_cat.Shim
use xeryon_ether_cat.Shim.{M}
use xeryon_ether_cat.Shim.Log
use xeryon_ether_cat.Shim.Pdo
use xeryon_ether_cat.Shim.Info

abbrev pub LogLevel : Type 0
LogLevel = Shim.LogLevel

abbrev pub bad_args : ℤ
bad_args = Shim.bad_args

abbrev pub send_fail : ℤ
send_fail = Shim.send_fail

abbrev pub recv_fail : ℤ
recv_fail = Shim.recv_fail

abbrev pub wkc_low : ℤ
wkc_low = Shim.wkc_low

abbrev pub Handle : Type 0
Handle = Shim.Handle

-- The structs as a compiler on Linux sees them.
abbrev pub DriveRxPdo : Type 0
DriveRxPdo = Pdo.DriveRxPdo

abbrev pub DriveTxPdo : Type 0
DriveTxPdo = Pdo.DriveTxPdo

abbrev pub SlaveInfo : Type 0
SlaveInfo = Info.SlaveInfo

abbrev pub Health : Type 0
Health = Info.Health

module _ {X : Type 0} ⦃p : Platform X⦄ where
  abbrev pub log_info : String → M X (Unit {0})
  log_info = Log.log_info

  abbrev pub log_warn : String → M X (Unit {0})
  log_warn = Log.log_warn

  abbrev pub log_err : String → M X (Unit {0})
  log_err = Log.log_err
