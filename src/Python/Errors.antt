-- ===== src/Python/Errors.antt =====
-- The exceptions that the modelled code raises or catches: errors.py of growatt_protocol and
-- Python's own. Their message texts are left out.
use growatt_datalogger.Base.{Bool, false, inl, inr, refl, true, ◌≡◌, ◌⊎◌}

pub data Error : Type 0 where
  frame_error record_error command_timeout : Error
  value_error overflow_error timeout_error runtime_error index_error key_error connection_error
        handler_error home_assistant_error service_validation_error zero_division_error :
      Error

-- What a call ends with: the exception that leaves it, or the value returned.
pub data Result {ℓ} (A : Type ℓ) : Type ℓ where
  err : Error → Result A
  ok : A → Result A

infixl 5 ◌>>=◌ ◌>>◌
abbrev pub ◌>>=◌ {ℓ κ} : {A : Type ℓ} {B : Type κ} → Result A → (A → Result B) → Result B
err raised >>= next = err raised
ok value >>= next = next value

abbrev pub ◌>>◌ {ℓ} : {B : Type ℓ} → Result (Unit {0}) → Result B → Result B
first >> next = first >>= λ done. next

-- `if not test: raise e`
abbrev pub guard : Bool → Error → Result (Unit {0})
guard test raised = elim test [ true ↦ ok tt | false ↦ err raised ]

-- A chain that returns has its first call return, and then the rest.
pub >>=-eq-ok {ℓ κ} :
    {A : Type ℓ} {B : Type κ} {b : B} (first : Result A) (next : A → Result B)
    → (first >>= next) ≡ ok b
    → (a : A) × (first ≡ ok a) × (next a ≡ ok b)
>>=-eq-ok (err raised) next h = cc
>>=-eq-ok (ok value) next h = (value, refl, h)

pub Result-cases {ℓ} :
    {A : Type ℓ} (r : Result A) → ((a : A) × (r ≡ ok a)) ⊎ ((e : Error) × (r ≡ err e))
Result-cases (ok a) = inl (a, refl)
Result-cases (err e) = inr (e, refl)
