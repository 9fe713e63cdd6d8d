-- ===== src/Outcome.antt =====
-- Results of C functions: a value, a call of errHandling() (which ends the program), undefined
-- behaviour, or a wait that nothing ends. `ErrorCode` is the enum of src/libs/utils.h.
use ipk_project.Prelude.{◌≡◌, refl, subst, Bool, true, false, if◌then◌else◌}

pub data ErrorCode : Type 0 where
  no_err mising_program_arg network_init communication : ErrorCode
  internal_unexpected_result internal_bad_arg memory_fail : ErrorCode

pub data Outcome {ℓ} (A : Type ℓ) : Type ℓ where
  ok : A → Outcome A
  error : ErrorCode → Outcome A
  fault : Outcome A
  blocked : Outcome A

-- A run followed by another. It computes in every declaration, since it is an `abbrev`.
infixl 5 ◌>>=◌
abbrev pub ◌>>=◌ {ℓ κ} : {A : Type ℓ} {B : Type κ} → Outcome A → (A → Outcome B) → Outcome B
ok x >>= next = next x
error code >>= next = error code
fault >>= next = fault
blocked >>= next = blocked

module _ {ℓ κ} {A : Type ℓ} {B : Type κ} where
  -- a value of the first run with which the second returns `y`
  abbrev pub Between : Outcome A → (A → Outcome B) → B → Type (ℓ ⊔ κ)
  Between run next y = (x : A) × (run ≡ ok x) × (next x ≡ ok y)

  -- Where both runs together return, the first does.
  pub >>=-Between :
      (run : Outcome A) (next : A → Outcome B) {y : B} → run >>= next ≡ ok y → Between run next y
  >>=-Between (ok x) next e = (x, refl, e)
  >>=-Between (error code) next e = cc
  >>=-Between fault next e = cc
  >>=-Between blocked next e = cc

-- The value of a run that returns satisfies `P`.
pub data Ensures {ℓ κ} {A : Type ℓ} (P : A → Type κ) : Outcome A → Type (ℓ ⊔ κ) where
  returns : {a : A} → P a → Ensures P (ok a)
  raises : {e : ErrorCode} → Ensures P (error e)
  faults : Ensures P fault
  hangs : Ensures P blocked

module _ {ℓ κ} {A : Type ℓ} {P : A → Type κ} where
  pub Ensures-bind {ℓ' κ'} :
      {B : Type ℓ'} {Q : B → Type κ'} {m : Outcome A} {f : A → Outcome B}
      → Ensures P m
      → ((a : A) → P a → Ensures Q (f a))
      → Ensures Q (m >>= f)
  Ensures-bind (returns h) k = k _ h
  Ensures-bind raises k = raises
  Ensures-bind faults k = faults
  Ensures-bind hangs k = hangs

  pub Ensures-weaken {κ'} :
      {Q : A → Type κ'} {m : Outcome A} → Ensures P m → ((a : A) → P a → Q a) → Ensures Q m
  Ensures-weaken (returns h) k = returns (k _ h)
  Ensures-weaken raises k = raises
  Ensures-weaken faults k = faults
  Ensures-weaken hangs k = hangs

-- The same where what `m` returns does not matter.
pub Ensures-then {ℓ ℓ' κ'} :
    {A : Type ℓ} {B : Type ℓ'} {Q : B → Type κ'} (m : Outcome A) (f : A → Outcome B)
    → ((a : A) → Ensures Q (f a))
    → Ensures Q (m >>= f)
Ensures-then (ok a) f k = k a
Ensures-then (error e) f k = raises
Ensures-then fault f k = faults
Ensures-then blocked f k = hangs

pub Ensures-if {ℓ κ} :
    {A : Type ℓ} {P : A → Type κ} (b : Bool) (m n : Outcome A)
    → Ensures P m
    → Ensures P n
    → Ensures P (if b then m else n)
Ensures-if true m n h k = h
Ensures-if false m n h k = k

abbrev HoldsOf {ℓ κ} : {A : Type ℓ} → (A → Type κ) → Outcome A → Type κ
HoldsOf P (ok a) = P a
HoldsOf P (error e) = Unit
HoldsOf P fault = Unit
HoldsOf P blocked = Unit

extract {ℓ κ} : {A : Type ℓ} {P : A → Type κ} {m : Outcome A} → Ensures P m → HoldsOf P m
extract (returns h) = h
extract raises = tt
extract faults = tt
extract hangs = tt

pub Ensures-ok {ℓ κ} :
    {A : Type ℓ} {P : A → Type κ} {m : Outcome A} {a : A} → Ensures P m → m ≡ ok a → P a
Ensures-ok {P} h e = subst (HoldsOf P) e (extract h)

-- From what holds of the value of each run that returns.
pub Ensures-intro {ℓ κ} :
    {A : Type ℓ} {P : A → Type κ} (m : Outcome A) → ((a : A) → m ≡ ok a → P a) → Ensures P m
Ensures-intro (ok a) f = returns (f a refl)
Ensures-intro (error e) f = raises
Ensures-intro fault f = faults
Ensures-intro blocked f = hangs

pub Ensures-elim {ℓ κ} :
    {A : Type ℓ} {P : A → Type κ} (b : Bool) (x y : Outcome A)
    → Ensures P x
    → Ensures P y
    → Ensures P (elim b [ true ↦ x | false ↦ y ])
Ensures-elim true x y a b = a
Ensures-elim false x y a b = b
