-- ===== src/Service/Act.antt =====
-- What the managed code runs in: it passes a world on, and `none` is an exception that nothing
-- catches, or a fault below it.
use xeryon_ether_cat.Base.{Option, none, some, ◌≡◌, refl, Bool, true, false, if◌then◌else◌}

abbrev pub Act : Type 0 → Type 0 → Type 0
Act W A = W → Option (A × W)

abbrev pub done : {W A : Type 0} → A → Act W A
done a w = some (a, w)

abbrev pub and_then : {W A B : Type 0} → Option (A × W) → (A → Act W B) → Option (B × W)
and_then none f = none
and_then (some (a, w)) f = f a w

infixl 5 ◌>>=◌ ◌>>◌
abbrev pub ◌>>=◌ : {W A B : Type 0} → Act W A → (A → Act W B) → Act W B
◌>>=◌ m f w = and_then (m w) f

abbrev pub ◌>>◌ : {W B : Type 0} → Act W (Unit {0}) → Act W B → Act W B
m >> k = m >>= λ _. k

module _ {W : Type 0} where
  -- It comes back, with a value and a world that are described.
  abbrev pub Does : {A : Type 0} → Act W A → W → (A → W → Type 0) → Type 0
  Does {A} m w Q = (a : A) × (u : W) × (m w ≡ some (a, u)) × Q a u

  pub Does->>= :
      {A B : Type 0} (m : Act W A) (f : A → Act W B) (w : W) {Q : A → W → Type 0}
      {R : B → W → Type 0}
      → Does m w Q
      → ((a : A) (u : W) → Q a u → Does (f a) u R)
      → Does (m >>= f) w R
  Does->>= m f w (a, u, e, q) k = let (b, v, e', r) = k a u q in (b, v, rw e e', r)

  pub Does-weaken :
      {A : Type 0} (m : Act W A) (w : W) {Q R : A → W → Type 0}
      → Does m w Q
      → ((a : A) (u : W) → Q a u → R a u)
      → Does m w R
  Does-weaken m w (a, u, e, q) k = (a, u, e, k a u q)

  pub Does-map :
      {A B : Type 0} (m : Act W A) (g : A → B) (w : W) {R : W → Type 0}
      → Does m w (λ _ u. R u)
      → Does (m >>= λ a. done (g a)) w (λ _ u. R u)
  Does-map m g w d = Does->>= m (λ a. done (g a)) w d λ a u q. (g a, u, refl, q)

  -- A test, with what it says in each branch.
  pub Does-if :
      {A : Type 0} (b : Bool) (m k : Act W A) {w : W} {Q : A → W → Type 0}
      → (b ≡ true → Does m w Q)
      → (b ≡ false → Does k w Q)
      → Does (if b then m else k) w Q
  Does-if true m k first second = first refl
  Does-if false m k first second = second refl
