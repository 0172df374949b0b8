-- ===== src/Sealing/Params/Chain.antt =====
-- Chains of readings that may be refused, of app/routers/location_params.py.
use map_service_hub.Base.{◌≡◌, refl, Bool, true, false, not, ◌||◌, if◌then◌else◌, arith}
use map_service_hub.Sealing.Params.{Resolved, resolved, rejected, broken, ◌>>=◌}

-- what a chain that succeeds has passed
pub bind-resolved :
    {A B : Type 0} (r : Resolved A) (f : A → Resolved B) (b : B)
    → r >>= f ≡ resolved b
    → (a : A) × (r ≡ resolved a) × (f a ≡ resolved b)
bind-resolved (resolved a) f b e = (a, refl, e)
bind-resolved rejected f b e = absurd (ground arith)
bind-resolved broken f b e = absurd (ground arith)

pub resolved-injective : {A : Type 0} (a b : A) → resolved a ≡ resolved b → a ≡ b
resolved-injective a b e = ground arith

-- a test that refuses gives what it was given
pub check-resolved :
    {A : Type 0} (ok : Bool) (a b : A)
    → (if not ok then rejected else resolved a) ≡ resolved b
    → (a ≡ b) × (ok ≡ true)
check-resolved true a b e = (resolved-injective a b e, refl)
check-resolved false a b e = absurd (ground arith)

pub neither : (a b : Bool) → (not a || not b) ≡ false → (a ≡ true) × (b ≡ true)
neither true true e = (refl, refl)
neither true false e = absurd (ground arith)
neither false b e = absurd (ground arith)

-- a predicate of what is returned, where something is
abbrev pub Holds : {A : Type 0} → (A → Type 0) → Resolved A → Type 0
Holds P (resolved a) = P a
Holds P rejected = Unit
Holds P broken = Unit

pub Holds-of :
    {A : Type 0} (P : A → Type 0) (r : Resolved A) → ((a : A) → r ≡ resolved a → P a) → Holds P r
Holds-of P (resolved a) h = h a refl
Holds-of P rejected h = tt
Holds-of P broken h = tt
