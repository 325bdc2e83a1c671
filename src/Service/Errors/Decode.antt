-- ===== src/Service/Errors/Decode.antt =====
-- Which fault of a drive is told when it reports several.
use xeryon_ether_cat.Base.{
  ℕ, suc, if◌then◌else◌, true, false, Bool, Option, none, some, ◌≡◌, refl, ◌⊎◌, inl, inr, ◌≤◌, ◌<◌,
  ◌&&◌, ◌||◌, arith, Bool-cases, ltb, ◌==◌, ==_iff, sym, ap, ◌∙◌,
}
use xeryon_ether_cat.Shim.Pdo.{DriveTxPdo}
use xeryon_ether_cat.Service.Errors.{
  DriveErrorCode, no_error, follow_error, position_fail, safety_timeout, emergency_stop,
  encoder_error, thermal_protection, end_stop_hit, force_zero, error_compensation_fault,
  unknown_fault, DriveError, is_set, try_decode_error, amplifier1_error, amplifier2_error,
  encoder_read_error, following_error, motor_time_error, stop_error, settling_error, left_end_error,
  right_end_error,
}

-- Whether a drive's flags report a fault of the code (README.md, "Health monitoring & recovery").
abbrev pub has_fault : DriveErrorCode → DriveTxPdo → Bool
has_fault thermal_protection t = is_set t.thermal_protection1 || is_set t.thermal_protection2
has_fault encoder_error t = is_set t.encoder_error
has_fault follow_error t = is_set t.error_limit
has_fault safety_timeout t = is_set t.safety_timeout
has_fault emergency_stop t = is_set t.emergency_stop
has_fault position_fail t = is_set t.position_fail
has_fault end_stop_hit t = is_set t.end_stop && (is_set t.left_end_stop || is_set t.right_end_stop)
has_fault force_zero t = is_set t.force_zero
has_fault error_compensation_fault t = is_set t.error_compensation
has_fault no_error t = false
has_fault unknown_fault t = false

-- The codes in the order of their weight, the heaviest first, and behind them, at 7, those for which
-- `TryDecodeError` has no test.
abbrev pub rank : DriveErrorCode → ℕ
rank thermal_protection = 0
rank encoder_error = 1
rank follow_error = 2
rank safety_timeout = 3
rank emergency_stop = 4
rank position_fail = 5
rank end_stop_hit = 6
rank _ = 7

-- No code of a weight above `k` is reported.
abbrev IsClear : ℕ → DriveTxPdo → Type 0
IsClear k t = (c : DriveErrorCode) → (rank c < k) → has_fault c t ≡ false

IsClear-rank :
    (k : ℕ) (t : DriveTxPdo)
    → IsClear k t
    → (c : DriveErrorCode) → has_fault c t ≡ true
    → k ≤ rank c
IsClear-rank k t clear c f = elim (Bool-cases (ltb (rank c) k)) [
  | inl light ↦ absurd (ground (arith, clear c (ground (arith, light)), f))
  | inr heavy ↦ ground (arith, heavy)
]

abbrev code_of : ℕ → DriveErrorCode
code_of k =
    if k == 0
    then thermal_protection
    else if k == 1
    then encoder_error
    else if k == 2
    then follow_error
    else if k == 3
    then safety_timeout
    else if k == 4
    then emergency_stop
    else if k == 5
    then position_fail
    else if k == 6
    then end_stop_hit
    else no_error

code_of-rank :
    (c : DriveErrorCode) (t : DriveTxPdo)
    → rank c < 7
    → has_fault (code_of (rank c)) t ≡ has_fault c t
code_of-rank no_error t tested = absurd (ground (arith, tested))
code_of-rank follow_error t tested = refl
code_of-rank position_fail t tested = refl
code_of-rank safety_timeout t tested = refl
code_of-rank emergency_stop t tested = refl
code_of-rank encoder_error t tested = refl
code_of-rank thermal_protection t tested = refl
code_of-rank end_stop_hit t tested = refl
code_of-rank force_zero t tested = absurd (ground (arith, tested))
code_of-rank error_compensation_fault t tested = absurd (ground (arith, tested))
code_of-rank unknown_fault t tested = absurd (ground (arith, tested))

IsClear-suc :
    (k : ℕ) (t : DriveTxPdo)
    → k < 7
    → IsClear k t
    → has_fault (code_of k) t ≡ false
    → IsClear (suc k) t
IsClear-suc k t tested clear off c light = elim (Bool-cases (rank c == k)) [
  | inl here ↦
      let same : rank c ≡ k = (==_iff _ _).0 here in
      sym (code_of-rank c t (omega (arith, light, tested)))
      ∙ ap (λ j. has_fault (code_of j) t) same
      ∙ off
  | inr other ↦ clear c (ground (arith, other, light))
]

-- The answer for a state that reports the code `e.code`, and none above it.
abbrev Heaviest : Option DriveError → DriveTxPdo → Type 0
Heaviest o t =
    ((o ≡ none) × ((c : DriveErrorCode) → (rank c < 7) → has_fault c t ≡ false))
    ⊎ ((e : DriveError) × (o ≡ some e)
        × (rank e.code < 7)
        × (has_fault e.code t ≡ true)
        × ((c : DriveErrorCode) → has_fault c t ≡ true → rank e.code ≤ rank c))

tell :
    (e : DriveError) (t : DriveTxPdo)
    → rank e.code < 7
    → IsClear (rank e.code) t
    → has_fault e.code t ≡ true
    → Heaviest (some e) t
tell e t tested clear f = inr (e, refl, tested, f, IsClear-rank (rank e.code) t clear)

-- One test of the chain, behind which no code of a weight above `e.code` is left.
first_of :
    (t : DriveTxPdo) (b : Bool) (e : DriveError) (next : Option DriveError)
    → rank e.code < 7
    → IsClear (rank e.code) t
    → (b ≡ true → has_fault e.code t ≡ true)
    → (b ≡ false → Heaviest next t)
    → Heaviest (if b then some e else next) t
first_of t true e next tested clear here later = tell e t tested clear (here refl)
first_of t false e next tested clear here later = later refl

-- A state decodes to no error exactly if it reports none of the seven codes that are tested, from
-- thermal protection to the end stops, even if it reports ForceZero or ErrorCompensationFault. Any
-- other decodes to an error with one of the seven codes, which the state reports, and every other
-- code that it reports is of no greater weight. So ForceZero and ErrorCompensationFault are never
-- told.
pub try_decode_error_heaviest :
    (t : DriveTxPdo)
    → ((try_decode_error t ≡ none) × ((c : DriveErrorCode) → (rank c < 7) → has_fault c t ≡ false))
      ⊎ ((e : DriveError) × (try_decode_error t ≡ some e)
          × (rank e.code < 7)
          × (has_fault e.code t ≡ true)
          × ((c : DriveErrorCode) → has_fault c t ≡ true → rank e.code ≤ rank c))
unfolding try_decode_error
try_decode_error_heaviest t =
    let clear0 : IsClear 0 t = λ c light. absurd (omega arith) in
    first_of t (is_set t.thermal_protection1) amplifier1_error _ (omega arith) clear0
      (λ h. ground (arith, h))
      λ h0.
        first_of t (is_set t.thermal_protection2) amplifier2_error _ (omega arith) clear0
          (λ h. ground (arith, h))
          λ h1.
            let clear1 : IsClear 1 t =
              IsClear-suc 0 t (omega arith) clear0 (ground (arith, h0, h1)) in
            first_of t (is_set t.encoder_error) encoder_read_error _ (omega arith) clear1 (λ h. h)
              λ h2.
                let clear2 : IsClear 2 t = IsClear-suc 1 t (omega arith) clear1 h2 in
                first_of t (is_set t.error_limit) following_error _ (omega arith) clear2 (λ h. h)
                  λ h3.
                    let clear3 : IsClear 3 t = IsClear-suc 2 t (omega arith) clear2 h3 in
                    first_of t (is_set t.safety_timeout) motor_time_error _ (omega arith) clear3
                      (λ h. h)
                      λ h4.
                        let clear4 : IsClear 4 t = IsClear-suc 3 t (omega arith) clear3 h4 in
                        first_of t (is_set t.emergency_stop) stop_error _ (omega arith) clear4
                          (λ h. h)
                          λ h5.
                            let clear5 : IsClear 5 t = IsClear-suc 4 t (omega arith) clear4 h5 in
                            first_of t (is_set t.position_fail) settling_error _ (omega arith)
                              clear5 (λ h. h)
                              λ h6.
                                let clear6 : IsClear 6 t =
                                  IsClear-suc 5 t (omega arith) clear5 h6 in
                                first_of t (is_set t.end_stop && is_set t.left_end_stop)
                                  left_end_error _ (omega arith) clear6 (λ h. ground (arith, h))
                                  λ h7.
                                    first_of t (is_set t.end_stop && is_set t.right_end_stop)
                                      right_end_error _ (omega arith) clear6
                                      (λ h. ground (arith, h))
                                      λ h8.
                                        let clear7 : IsClear 7 t =
                                          IsClear-suc 6 t (omega arith) clear6
                                            (ground (arith, h7, h8)) in
                                        inl (refl, clear7)
