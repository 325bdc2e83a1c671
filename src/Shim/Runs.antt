-- ===== src/Shim/Runs.antt =====
-- A run that ends without a fault, in a state that is described, and the rules for it.
use mathlib.Core.Path.{subst}
use xeryon_ether_cat.Base.{◌≡◌, refl, ◌∙◌, some}
use xeryon_ether_cat.Soem.{Net}
use xeryon_ether_cat.Soem.Mapping.{SameMapping}
use xeryon_ether_cat.Shim.{St, M, Call, ◌>>=◌, after_call}
use xeryon_ether_cat.Shim.Mapped.{IsMapped, after_call-IsMapped, same-IsMapped}

module _ {X : Type 0} where
  abbrev pub Runs : {A : Type 0} → M X A → St X → (A → St X → Type 0) → Type 0
  Runs {A} m s Q = (a : A) × (s' : St X) × (m s ≡ some (a, s')) × Q a s'

  pub Runs->>= :
      {A B : Type 0} (m : M X A) (f : A → M X B) (s : St X) {Q : A → St X → Type 0}
      {R : B → St X → Type 0}
      → Runs m s Q
      → ((a : A) (s' : St X) → Q a s' → Runs (f a) s' R)
      → Runs (m >>= f) s R
  Runs->>= m f s (a, s', e, q) k = let (b, t, e', r) = k a s' q in (b, t, rw e e', r)

  -- The state is still mapped, has the slaves that it had, and the same IO map and port.
  pub record Stays (s t : St X) : Type 0 where
    pub mapped : IsMapped t
    pub slavecount : t.handle.context.slavecount ≡ s.handle.context.slavecount
    pub size : t.iomap.size ≡ s.iomap.size
    pub port_open : t.port_open ≡ s.port_open

  pub Stays-refl : (s : St X) → IsMapped s → Stays s s
  Stays-refl s m = record { mapped = m; slavecount = refl; size = refl; port_open = refl }

  pub Stays-trans : {s t u : St X} → Stays s t → Stays t u → Stays s u
  Stays-trans a b = record {
    mapped = b.mapped;
    slavecount = b.slavecount ∙ a.slavecount;
    size = b.size ∙ a.size;
    port_open = b.port_open ∙ a.port_open;
  }

  pub after_call-Stays :
      (c : Call) (s : St X) (n : Net X)
      → SameMapping n.context s.handle.context
      → IsMapped s
      → Stays s (after_call c s n)
  after_call-Stays c s n same m = record {
    mapped = after_call-IsMapped c s n same m;
    slavecount = same.slavecount;
    size = refl;
    port_open = refl;
  }

  pub same-Stays :
      (s t : St X)
      → t.allocated ≡ s.allocated
      → t.handle.context ≡ s.handle.context
      → t.iomap.size ≡ s.iomap.size
      → t.port_open ≡ s.port_open
      → IsMapped s
      → Stays s t
  same-Stays s t live context size port m = record {
    mapped = same-IsMapped s t live context size m;
    slavecount = λ i. (context i).slavecount;
    size = size;
    port_open = port;
  }

  -- Two runs that leave the state mapped, one behind the other.
  pub Stays->>= :
      {A B : Type 0} (m : M X A) (f : A → M X B) (s : St X) {Q : A → St X → Type 0}
      {R : B → St X → Type 0}
      → Runs m s Q
      → ((a : A) (t : St X) → Q a t → Stays s t)
      → ((a : A) (t : St X) → IsMapped t → Q a t → Runs (f a) t (λ b u. Stays t u × R b u))
      → Runs (m >>= f) s (λ b u. Stays s u × R b u)
  Stays->>= m f s (a, t, e, q) stays k =
      let first : Stays s t = stays a t q in
      let (b, u, e', (q', r)) = k a t first.mapped q in (b, u, rw e e', (Stays-trans first q', r))

  -- What is said of a run holds of the value and the state that it gives.
  pub Runs-at :
      {A : Type 0} (m : M X A) (s : St X) (Q : A → St X → Type 0) {a : A} {t : St X}
      → Runs m s Q
      → m s ≡ some (a, t)
      → Q a t
  Runs-at {A} m s Q {a} {t} (b, u, e, q) given =
      let same : ◌≡◌ {A = A × St X} (b, u) (a, t) = cc in subst (λ r. Q r.0 r.1) same q
