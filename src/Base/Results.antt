-- ===== src/Base/Results.antt =====
-- The exceptions of backend/runtime/exceptions.py, and results that may carry one. A message text
-- is not kept; `integrity_error` is Django's `IntegrityError`, where no service catches it, and
-- `does_not_exist` is Django's `Model.DoesNotExist`, raised by `objects.get`.
use mathlib.Core.Path.{◌≡◌, refl, subst}
use mathlib.Core.Bool.{Bool, true, false}
use mathlib.Core.Option.{Option, none, some}

pub data RuntimeDomainError : Type 0 where
  validation conflict authorization not_found : RuntimeDomainError
  fenced not_ready repair_required lease_conflict idempotency_conflict : RuntimeDomainError
  does_not_exist integrity_error : RuntimeDomainError

-- `isinstance(exc, RuntimeConflictError)`, with the subclasses that exceptions.py declares.
unfoldable pub is_conflict : RuntimeDomainError → Bool
is_conflict conflict = true
is_conflict fenced = true
is_conflict not_ready = true
is_conflict repair_required = true
is_conflict lease_conflict = true
is_conflict idempotency_conflict = true
is_conflict _ = false

-- What a service gives back: the exception it raised, or its value.
pub data Result {ℓ} (A : Type ℓ) : Type ℓ where
  err : (raised_error : RuntimeDomainError) → Result A
  ok : (value : A) → Result A

-- The next statement runs only where the one before it raised nothing.
infixl 5 ◌>>=◌
abbrev pub ◌>>=◌ {κ ℓ} : {V : Type κ} {W : Type ℓ} → Result V → (V → Result W) → Result W
err raised_error >>= next = err raised_error
ok value >>= next = next value

-- `if not b: raise e`.
abbrev pub ensure : (test : Bool) → RuntimeDomainError → Result (Unit {0})
ensure false raised_error = err raised_error
ensure true raised_error = ok tt

infixl 5 ◌>>◌
abbrev pub ◌>>◌ {κ} : {W : Type κ} → Result (Unit {0}) → Result W → Result W
check >> rest = check >>= λ nothing. rest

-- `if b: raise e`.
abbrev pub refuse : Bool → RuntimeDomainError → Result (Unit {0})
refuse true e = err e
refuse false e = ok tt

-- `if row is None: raise e`.
abbrev pub or_raise {ℓ} : {A : Type ℓ} → Option A → RuntimeDomainError → Result A
or_raise none e = err e
or_raise (some a) e = ok a

-- The value that a first statement passed on, where both ran to their end.
pub >>=-eq-ok {κ ℓ} :
    {V : Type κ} {W : Type ℓ} (first : Result V) (next : V → Result W) {w : W}
    → (first >>= next) ≡ ok w
    → (value : V) × (first ≡ ok value) × (next value ≡ ok w)
>>=-eq-ok (err raised_error) next h = cc
>>=-eq-ok (ok value) next h = (value, refl, h)

-- The two ways in which a service may end, with the equation kept.
pub data IsOutcome {ℓ} {A : Type ℓ} (r : Result A) : Type ℓ where
  went_well : (a : A) → r ≡ ok a → IsOutcome r
  raised : (e : RuntimeDomainError) → r ≡ err e → IsOutcome r

pub Result-cases {ℓ} : {A : Type ℓ} (r : Result A) → IsOutcome r
Result-cases (ok a) = went_well a refl
Result-cases (err e) = raised e refl

-- The postcondition of a service: what holds of its result, where it raises nothing.
abbrev pub Ensures {ℓ κ} : {A : Type ℓ} → (A → Type κ) → Result A → Type κ
Ensures P (ok a) = P a
Ensures P (err e) = Unit

pub Ensures->>= {ℓ κ μ ν} :
    {A : Type ℓ} {B : Type κ} (P : A → Type μ) (Q : B → Type ν) (m : Result A) (f : A → Result B)
    → Ensures P m
    → ((a : A) → P a → Ensures Q (f a))
    → Ensures Q (m >>= f)
Ensures->>= P Q (ok a) f h k = k a h
Ensures->>= P Q (err e) f h k = tt

-- A postcondition, read at a result.
pub Ensures-ok {ℓ κ} :
    {A : Type ℓ} (P : A → Type κ) (m : Result A) {a : A} → Ensures P m → m ≡ ok a → P a
Ensures-ok P m h e = subst (Ensures P) e h

-- A postcondition, established at every result.
pub Ensures-intro {ℓ κ} :
    {A : Type ℓ} (P : A → Type κ) (m : Result A) → ((a : A) → m ≡ ok a → P a) → Ensures P m
Ensures-intro P (ok a) f = f a refl
Ensures-intro P (err e) f = tt

pub Ensures-map {ℓ κ μ} :
    {A : Type ℓ} (P : A → Type κ) (Q : A → Type μ) (m : Result A)
    → ((a : A) → P a → Q a)
    → Ensures P m
    → Ensures Q m
Ensures-map P Q (ok a) f h = f a h
Ensures-map P Q (err e) f h = tt

-- A bind whose first part says nothing.
pub Ensures-bind {ℓ κ μ} :
    {A : Type ℓ} {B : Type κ} (Q : B → Type μ) (m : Result A) (f : A → Result B)
    → ((a : A) → Ensures Q (f a))
    → Ensures Q (m >>= f)
Ensures-bind Q (ok a) f k = k a
Ensures-bind Q (err e) f k = tt

pub Ensures-× {ℓ κ μ} :
    {A : Type ℓ} (P : A → Type κ) (Q : A → Type μ) (m : Result A)
    → Ensures P m
    → Ensures Q m
    → Ensures (λ a. P a × Q a) m
Ensures-× P Q (ok a) h k = (h, k)
Ensures-× P Q (err e) h k = tt

pub or_raise-eq-ok {ℓ} :
    {A : Type ℓ} (o : Option A) (e : RuntimeDomainError) {a : A} → or_raise o e ≡ ok a → o ≡ some a
or_raise-eq-ok none e h = cc
or_raise-eq-ok (some b) e h = cc

-- A test that let the service go on.
pub ensure-holds :
    (test : Bool) (e : RuntimeDomainError) {u : Unit {0}} → ensure test e ≡ ok u → test ≡ true
ensure-holds true e h = refl
ensure-holds false e h = cc

-- A lookup that let the service go on.
pub Ensures-or_raise {ℓ κ μ} :
    {A : Type ℓ} {B : Type κ} (Q : B → Type μ) (o : Option A) (e : RuntimeDomainError)
    (f : A → Result B)
    → ((a : A) → o ≡ some a → Ensures Q (f a))
    → Ensures Q (or_raise o e >>= f)
Ensures-or_raise Q none e f k = tt
Ensures-or_raise Q (some a) e f k = k a refl

-- A test, with what it shows to the rest of the service.
pub Ensures-ensure {κ μ} :
    {B : Type κ} (Q : B → Type μ) (test : Bool) (e : RuntimeDomainError) (rest : Result B)
    → (test ≡ true → Ensures Q rest)
    → Ensures Q (ensure test e >> rest)
Ensures-ensure Q true e rest k = k refl
Ensures-ensure Q false e rest k = tt

pub Ensures-refuse {κ μ} :
    {B : Type κ} (Q : B → Type μ) (test : Bool) (e : RuntimeDomainError) (rest : Result B)
    → (test ≡ false → Ensures Q rest)
    → Ensures Q (refuse test e >> rest)
Ensures-refuse Q true e rest k = tt
Ensures-refuse Q false e rest k = k refl

-- A service that goes on with a row only where it is there.
pub Ensures-option {ℓ κ μ} :
    {A : Type ℓ} {B : Type κ} (Q : B → Type μ) (o : Option A) (d : Result B) (f : A → Result B)
    → Ensures Q d
    → ((a : A) → Ensures Q (f a))
    → Ensures Q (elim o [ none ↦ d | some a ↦ f a ])
Ensures-option Q none d f h k = h
Ensures-option Q (some a) d f h k = k a
