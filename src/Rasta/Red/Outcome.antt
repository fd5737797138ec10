-- ===== src/Rasta/Red/Outcome.antt =====
-- How a call of the redundancy layer ends, and the memory that its packets lie in.
use tfm_cloud_ixl_rasta.Prelude.{
  ℕ, ◌≡◌, refl, ◌∙◌, ap, Bool, true, false, Option, none, some, ◌==◌, if◌then◌else◌,
}
use tfm_cloud_ixl_rasta.Rasta.Codec.{RastaRedundancyPacket}

-- A call returns, waits for a mutex that its own thread or no thread will ever unlock, follows a
-- pointer that leads nowhere, or is still in its loop after the passes that were allowed.
pub data Outcome {ℓ} (A : Type ℓ) : Type ℓ where
  returns : A → Outcome A
  blocks faults goes_on : Outcome A

infixl 5 ◌>>=◌
abbrev pub ◌>>=◌ {ℓ κ} : {A : Type ℓ} {B : Type κ} → Outcome A → (A → Outcome B) → Outcome B
returns a >>= f = f a
blocks >>= f = blocks
faults >>= f = faults
goes_on >>= f = goes_on

-- `pthread_mutex_lock`, where the mutex is held already if the argument is true.
abbrev pub lock {ℓ} : {A : Type ℓ} → Bool → Outcome A → Outcome A
lock true m = blocks
lock false m = m

abbrev pub or_fault {ℓ} : {A : Type ℓ} → Option A → Outcome A
or_fault none = faults
or_fault (some a) = returns a

-- The packets by their addresses, `none` where nothing is allocated.
abbrev pub Heap : Type 0
Heap = ℕ → Option RastaRedundancyPacket

unfoldable pub write : Heap → ℕ → Option RastaRedundancyPacket → Heap
write h a v b = if b == a then v else h b

-- What is read through a pointer, which is `none` if it is NULL.
unfoldable pub load : Heap → Option ℕ → Outcome RastaRedundancyPacket
load h none = faults
load h (some a) = or_fault (h a)

-- What a call that returned came from.
pub >>=-returns {ℓ κ} :
    {A : Type ℓ} {B : Type κ} (m : Outcome A) (f : A → Outcome B) {b : B}
    → (m >>= f) ≡ returns b
    → (a : A) × (m ≡ returns a) × (f a ≡ returns b)
>>=-returns (returns a) f e = (a, refl, e)
>>=-returns blocks f e = cc
>>=-returns faults f e = cc
>>=-returns goes_on f e = cc

pub lock-returns {ℓ} :
    {A : Type ℓ} (b : Bool) (m : Outcome A) {a : A}
    → lock b m ≡ returns a
    → (b ≡ false) × (m ≡ returns a)
lock-returns true m e = cc
lock-returns false m e = (refl, e)

-- The value of a call that returned.
abbrev pub result_or {ℓ} : {A : Type ℓ} → A → Outcome A → A
result_or d (returns a) = a
result_or d blocks = d
result_or d faults = d
result_or d goes_on = d

pub returns-injective {ℓ} : {A : Type ℓ} {a b : A} → returns a ≡ returns b → a ≡ b
returns-injective {a} {b} e = ap (result_or a) e

pub or_fault-returns {ℓ} : {A : Type ℓ} (o : Option A) {a : A} → or_fault o ≡ returns a → o ≡ some a
or_fault-returns none e = cc
or_fault-returns (some b) e = ap some (returns-injective e)

pub returns->>= {ℓ κ} :
    {A : Type ℓ} {B : Type κ} (m : Outcome A) (f : A → Outcome B) {a : A} {r : Outcome B}
    → m ≡ returns a
    → f a ≡ r
    → (m >>= f) ≡ r
returns->>= m f e k = ap (λ x. x >>= f) e ∙ k

pub lock_free {ℓ} :
    {A : Type ℓ} (b : Bool) (m : Outcome A) {r : Outcome A} → b ≡ false → m ≡ r → lock b m ≡ r
lock_free b m e k = ap (λ x. lock x m) e ∙ k

pub blocks->>= {ℓ κ} :
    {A : Type ℓ} {B : Type κ} (m : Outcome A) (f : A → Outcome B) → m ≡ blocks → (m >>= f) ≡ blocks
blocks->>= m f e = ap (λ x. x >>= f) e

pub faults->>= {ℓ κ} :
    {A : Type ℓ} {B : Type κ} (m : Outcome A) (f : A → Outcome B) → m ≡ faults → (m >>= f) ≡ faults
faults->>= m f e = ap (λ x. x >>= f) e
