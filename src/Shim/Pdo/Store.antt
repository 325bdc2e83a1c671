-- ===== src/Shim/Pdo/Store.antt =====
-- Copies into the IO map one behind the other are one copy.
use xeryon_ether_cat.Base.{
  ℕ, zero, suc, List, [], ◌∷◌, ◌++◌, ◌+◌, ◌-◌, ◌<◌, ◌≤◌, ◌≡◌, ◌⊎◌, arith, length, get_or, ltb,
  fun_ext, ap, length-append, if◌then◌else◌,
}
use xeryon_ether_cat.Shim.Pdo.{store}

pub get_or-append :
    (xs ys : List ℕ) (i d : ℕ)
    → get_or (xs ++ ys) i d
      ≡ (if ltb i (length xs) then get_or xs i d else get_or ys (i - length xs) d)
get_or-append [] ys i d = ground arith
get_or-append (x ∷ xs) ys zero d = ground arith
get_or-append (x ∷ xs) ys (suc i) d = ground (arith, get_or-append xs ys i d)

pub get_or-append_right :
    (xs ys : List ℕ) (n k d : ℕ) → length xs ≡ n → get_or (xs ++ ys) (n + k) d ≡ get_or ys k d
get_or-append_right xs ys n k d e =
    let there : n + k - length xs ≡ k = omega arith in
    ground (arith, get_or-append xs ys (n + k) d, ap (λ (i : ℕ). get_or ys i d) there)

module _ (mem : ℕ → ℕ) (at : ℕ) where
  pub store-inside :
      (bytes : List ℕ) (k : ℕ) → k < length bytes → store mem at bytes (at + k) ≡ get_or bytes k 0
  unfolding store
  store-inside bytes k h =
      let e : at + k - at ≡ k = omega arith in ground (arith, ap (λ (i : ℕ). get_or bytes i 0) e)

  pub store-outside :
      (bytes : List ℕ) (a : ℕ) → (a < at) ⊎ (at + length bytes ≤ a) → store mem at bytes a ≡ mem a
  unfolding store
  store-outside bytes a h = ground arith

  pub store-store :
      (xs ys : List ℕ) (next : ℕ)
      → next ≡ at + length xs
      → store (store mem at xs) next ys ≡ store mem at (xs ++ ys)
  unfolding store
  store-store xs ys next e =
      fun_ext λ a. ground (arith, length-append xs ys, get_or-append xs ys (a - at) 0)
