-- ===== src/Shim/Pdo/Codec.antt =====
-- What the images of the process-data objects mean, written down without the code that packs and
-- unpacks them.
use xeryon_ether_cat.Base.{
  ℕ, ℤ, List, [], ◌∷◌, ◌++◌, ◌+◌, ◌*◌, ◌/◌, ◌%◌, ◌^◌, ◌<◌, ◌≡◌, arith, IsInt32, word32, signed32,
  signed32-word32, word32-lt, ap, ◌∙◌, get_or, bit_and-one,
}
use xeryon_ether_cat.Shim.Pdo.{DriveTxPdo, unpack_txpdo, le_bytes, le_word32, bit_of}

-- A byte from its bits, the low one first.
abbrev pub byte_of : ℕ → ℕ → ℕ → ℕ → ℕ → ℕ → ℕ → ℕ → ℕ
byte_of a b c d e f g h = a + 2 * b + 4 * c + 8 * d + 16 * e + 32 * f + 64 * g + 128 * h

abbrev pub status0 : DriveTxPdo → ℕ
status0 t =
    byte_of t.amplifiers_enabled t.end_stop t.thermal_protection1 t.thermal_protection2 t.force_zero
      t.motor_on t.closed_loop t.encoder_index

abbrev pub status1 : DriveTxPdo → ℕ
status1 t =
    byte_of t.encoder_valid t.searching_index t.position_reached t.error_compensation
      t.encoder_error t.scanning t.left_end_stop t.right_end_stop

abbrev pub status2 : DriveTxPdo → ℕ
status2 t =
    byte_of t.error_limit t.searching_optimal_frequency t.safety_timeout t.execute_ack
      t.emergency_stop t.position_fail 0 0

-- The eight bytes that a drive sends for its state.
abbrev pub tx_image : DriveTxPdo → List ℕ
tx_image t =
    le_bytes 4 (word32 t.actual_position) ++ status0 t ∷ status1 t ∷ status2 t ∷ t.slot ∷ []

abbrev pub IsBit : ℕ → Type 0
IsBit b = b < 2

-- A state that a drive can report: a position of 32 bits, flags of one bit, a slot of a byte.
pub record IsTxPdo (t : DriveTxPdo) : Type 0 where
  pub actual_position : IsInt32 t.actual_position
  pub first :
      IsBit t.amplifiers_enabled
      × IsBit t.end_stop
      × IsBit t.thermal_protection1
      × IsBit t.thermal_protection2
      × IsBit t.force_zero
      × IsBit t.motor_on
      × IsBit t.closed_loop
      × IsBit t.encoder_index
  pub second :
      IsBit t.encoder_valid
      × IsBit t.searching_index
      × IsBit t.position_reached
      × IsBit t.error_compensation
      × IsBit t.encoder_error
      × IsBit t.scanning
      × IsBit t.left_end_stop
      × IsBit t.right_end_stop
  pub third :
      IsBit t.error_limit
      × IsBit t.searching_optimal_frequency
      × IsBit t.safety_timeout
      × IsBit t.execute_ack
      × IsBit t.emergency_stop
      × IsBit t.position_fail
  pub slot : t.slot < 256

pub bit_of_lem : (b k : ℕ) → bit_of b k ≡ b / 2 ^ k % 2
bit_of_lem b k = bit_and-one (b / 2 ^ k)

le_word32-le_bytes :
    (w : ℕ) (rest : List ℕ) → w < 2 ^ 32 → le_word32 (λ k. get_or (le_bytes 4 w ++ rest) k 0) ≡ w
le_word32-le_bytes w rest h = omega arith

-- The bits of a byte.
byte_of_bits :
    (a b c d e f g h : ℕ)
    → IsBit a × IsBit b × IsBit c × IsBit d × IsBit e × IsBit f × IsBit g × IsBit h
    → let x = byte_of a b c d e f g h in
      (bit_of x 0 ≡ a)
      × (bit_of x 1 ≡ b)
      × (bit_of x 2 ≡ c)
      × (bit_of x 3 ≡ d)
      × (bit_of x 4 ≡ e)
      × (bit_of x 5 ≡ f)
      × (bit_of x 6 ≡ g)
      × (bit_of x 7 ≡ h)
byte_of_bits a b c d e f g h p =
    let x = byte_of a b c d e f g h in
    (
      omega (arith, bit_of_lem x 0),
      omega (arith, bit_of_lem x 1),
      omega (arith, bit_of_lem x 2),
      omega (arith, bit_of_lem x 3),
      omega (arith, bit_of_lem x 4),
      omega (arith, bit_of_lem x 5),
      omega (arith, bit_of_lem x 6),
      omega (arith, bit_of_lem x 7),
    )

pub word_position :
    (z : ℤ) (rest : List ℕ)
    → IsInt32 z
    → signed32 (le_word32 (λ k. get_or (le_bytes 4 (word32 z) ++ rest) k 0)) ≡ z
word_position z rest h =
    ap signed32 (le_word32-le_bytes (word32 z) rest (word32-lt z h)) ∙ signed32-word32 z h

-- A state packed by its layout is read back as it was.
pub unpack_txpdo-tx_image :
    (t : DriveTxPdo) → IsTxPdo t → unpack_txpdo (λ k. get_or (tx_image t) k 0) ≡ t
unfolding unpack_txpdo
unpack_txpdo-tx_image t h =
    let position =
      word_position t.actual_position (status0 t ∷ status1 t ∷ status2 t ∷ t.slot ∷ [])
        h.actual_position in
    let first =
      byte_of_bits t.amplifiers_enabled t.end_stop t.thermal_protection1 t.thermal_protection2
        t.force_zero t.motor_on t.closed_loop t.encoder_index h.first in
    let second =
      byte_of_bits t.encoder_valid t.searching_index t.position_reached t.error_compensation
        t.encoder_error t.scanning t.left_end_stop t.right_end_stop h.second in
    let third =
      byte_of_bits t.error_limit t.searching_optimal_frequency t.safety_timeout t.execute_ack
        t.emergency_stop t.position_fail 0 0
        (
          h.third.0,
          h.third.1,
          h.third.2,
          h.third.3,
          h.third.4,
          h.third.5,
          omega arith,
          omega arith,
        ) in
    λ i. record {
      actual_position = position i;
      amplifiers_enabled = first.0 i;
      end_stop = first.1 i;
      thermal_protection1 = first.2 i;
      thermal_protection2 = first.3 i;
      force_zero = first.4 i;
      motor_on = first.5 i;
      closed_loop = first.6 i;
      encoder_index = first.7 i;
      encoder_valid = second.0 i;
      searching_index = second.1 i;
      position_reached = second.2 i;
      error_compensation = second.3 i;
      encoder_error = second.4 i;
      scanning = second.5 i;
      left_end_stop = second.6 i;
      right_end_stop = second.7 i;
      error_limit = third.0 i;
      searching_optimal_frequency = third.1 i;
      safety_timeout = third.2 i;
      execute_ack = third.3 i;
      emergency_stop = third.4 i;
      position_fail = third.5 i;
      slot = t.slot;
    }
