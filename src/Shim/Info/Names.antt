-- ===== src/Shim/Info/Names.antt =====
-- The names that a scan reports.
use xeryon_ether_cat.Base.{
  ℕ, zero, suc, List, [], ◌∷◌, ◌++◌, ◌≡◌, refl, ap, ◌+◌, arith, length, take, replicate,
  length-append,
}
use xeryon_ether_cat.Soem.{Slave, ec_maxname}
use xeryon_ether_cat.Shim.Info.{strncpy, slave_info}

-- What a `char` array says as a string: its characters before the first NUL.
abbrev pub text : List ℕ → List ℕ
text [] = []
text (zero ∷ src) = []
text (suc c ∷ src) = suc c ∷ text src

text-zeros : (n : ℕ) → text (replicate n 0 ++ 0 ∷ []) ≡ []
text-zeros zero = refl
text-zeros (suc n) = refl

length-zeros : (n : ℕ) → length {A = ℕ} (replicate n 0) ≡ n
length-zeros zero = refl
length-zeros (suc n) = ground (arith, length-zeros n)

length-strncpy : (n : ℕ) (src : List ℕ) → length (strncpy n src) ≡ n
unfolding strncpy
length-strncpy zero src = refl
length-strncpy (suc n) [] = length-zeros (suc n)
length-strncpy (suc n) (zero ∷ src) = length-zeros (suc n)
length-strncpy (suc n) (suc c ∷ src) = ground (arith, length-strncpy n src)

text-strncpy : (n : ℕ) (src : List ℕ) → text (strncpy n src ++ 0 ∷ []) ≡ take n (text src)
unfolding strncpy
text-strncpy zero src = ground arith
text-strncpy (suc n) [] = refl
text-strncpy (suc n) (zero ∷ src) = refl
text-strncpy (suc n) (suc c ∷ src) = ap (λ t. suc c ∷ t) (text-strncpy n src)

-- The name that a scan reports of a slave fills its array of 41 characters, ends inside it, and
-- says what the slave's own name says, or its first 40 characters if that is longer.
pub slave_info-name :
    (position : ℕ) (slave : Slave)
    → (length (slave_info position slave).name ≡ ec_maxname + 1)
      × (text (slave_info position slave).name ≡ take ec_maxname (text slave.name))
unfolding slave_info
slave_info-name position slave =
    let n = length-append (strncpy ec_maxname slave.name) (0 ∷ []) in
    let m = length-strncpy ec_maxname slave.name in
    (omega (arith, n, m), text-strncpy ec_maxname slave.name)
