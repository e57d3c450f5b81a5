-- ===== src/Outcome.antt =====
-- What a run of C code comes to: it goes on with a value, or it does something that C leaves
-- undefined (a bad pointer, a buffer that overflows), or a JNXCHECK stops the program.
use whisp.Prelude.{◌≡◌, ◌≢◌, refl, Bool, true, false}

pub data Fault : Type 0 where
  undefined check_failed : Fault

pub data Outcome {ℓ} (A : Type ℓ) : Type ℓ where
  done : A → Outcome A
  fault : Fault → Outcome A

infixl 5 ◌>>=◌ ◌>>◌
abbrev pub ◌>>=◌ {ℓ κ} : {A : Type ℓ} {B : Type κ} → Outcome A → (A → Outcome B) → Outcome B
done a >>= f = f a
fault e >>= f = fault e

abbrev pub ◌>>◌ {ℓ} : {B : Type ℓ} → Outcome (Unit {0}) → Outcome B → Outcome B
m >> k = m >>= λ _. k

-- `JNXCHECK(b)`
abbrev pub jnx_check : Bool → Outcome (Unit {0})
jnx_check true = done tt
jnx_check false = fault check_failed

-- A C pointer or number: not written since `malloc`, NULL, or a value.
pub data Slot {ℓ} (A : Type ℓ) : Type ℓ where
  unset : Slot A
  null : Slot A
  set : A → Slot A

-- Reading through a pointer, or a number that must have been written.
abbrev pub deref {ℓ} : {A : Type ℓ} → Slot A → Outcome A
deref (set a) = done a
deref _ = fault undefined

-- `free(p)`: NULL is allowed, an indeterminate pointer is not.
abbrev pub free_slot {ℓ} : {A : Type ℓ} → Slot A → Outcome (Unit {0})
free_slot unset = fault undefined
free_slot _ = done tt

-- A test `p` of a pointer: an indeterminate one may not be read.
abbrev pub is_pointer {ℓ} : {A : Type ℓ} → Slot A → Outcome Bool
is_pointer unset = fault undefined
is_pointer null = done false
is_pointer (set a) = done true

-- What has no fault has a value.
pub Outcome-done {ℓ} :
    {A : Type ℓ} (m : Outcome A) → ((e : Fault) → m ≡ fault e → ⊥) → (a : A) × (m ≡ done a)
Outcome-done (done a) h = (a, refl)
Outcome-done (fault e) h = absurd (h e refl)

-- The steps of a run that goes through, one after the other.
pub >>=-eq-done {ℓ κ} :
    {A : Type ℓ} {B : Type κ} (m : Outcome A) (f : A → Outcome B) {b : B}
    → (m >>= f) ≡ done b
    → (a : A) × (m ≡ done a) × (f a ≡ done b)
>>=-eq-done (done a) f h = (a, refl, h)
>>=-eq-done (fault e) f h = cc

pub deref-eq-done {ℓ} : {A : Type ℓ} (s : Slot A) {a : A} → deref s ≡ done a → s ≡ set a
deref-eq-done unset h = cc
deref-eq-done null h = cc
deref-eq-done (set b) h = cc

pub free_slot-eq-done {ℓ} :
    {A : Type ℓ} (s : Slot A) {u : Unit {0}} → free_slot s ≡ done u → s ≢ unset
free_slot-eq-done unset h = cc
free_slot-eq-done null h = λ e. cc
free_slot-eq-done (set b) h = λ e. cc

pub is_pointer-eq-done {ℓ} :
    {A : Type ℓ} (s : Slot A) {b : Bool} → is_pointer s ≡ done b → s ≢ unset
is_pointer-eq-done unset h = cc
is_pointer-eq-done null h = λ e. cc
is_pointer-eq-done (set a) h = λ e. cc

pub done_injective {ℓ} : {A : Type ℓ} {a b : A} → ◌≡◌ {A = Outcome A} (done a) (done b) → a ≡ b
done_injective h = cc
