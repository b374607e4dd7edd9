-- ===== src/Result.antt =====
-- Go's error results: a value or an error, and the errors that the modelled code makes.
use solana_dashboard.Common.{ℕ, ◌≡◌, refl, ◌⊎◌, inl, inr, String, arith}
use solana_dashboard.Common.Int.{ℤ}

-- `external` is whatever error a component outside the modelled code returns.
pub data Error : Type 0 where
  external : ℕ → Error
  unsupported_event : String → String → Error
  tracked_mint_missing : String → String → Error
  missing_field : String → String → Error
  unsupported_side : String → String → Error
  marshal_failed : String → Error → Error
  decode_failed : ℤ → String → Error → Error
  project_failed : ℤ → String → Error → Error
  event_missing : Error
  instruction_path_missing : Error
  payload_unsupported : Error
  model_missing : Error
  token_not_found : Error
  query_failed : String → Error → Error
  insert_failed : Error → Error

-- `return value, nil` and `return err`
pub data Result {ℓ} (A : Type ℓ) : Type ℓ where
  err : Error → Result A
  ok : A → Result A

-- `if err != nil { return err }` after a call, then the rest of the function.
infixl 5 ◌>>=◌
abbrev pub ◌>>=◌ {ℓ κ} : {X : Type ℓ} {Y : Type κ} → Result X → (X → Result Y) → Result Y
err error >>= rest = err error
ok value >>= rest = rest value

-- fmt.Errorf("…: %w", err) around a call.
abbrev pub map_err {ℓ} : {A : Type ℓ} → (Error → Error) → Result A → Result A
map_err g (ok a) = ok a
map_err g (err e) = err (g e)

pub Result-cases {ℓ} :
    {A : Type ℓ} (r : Result A) → ((a : A) × (r ≡ ok a)) ⊎ ((e : Error) × (r ≡ err e))
Result-cases (ok a) = inl (a, refl)
Result-cases (err e) = inr (e, refl)

-- A function that succeeds passed its first call.
pub ok_steps {ℓ κ} :
    {X : Type ℓ} {Y : Type κ} (call : Result X) (rest : X → Result Y) {out : Y}
    → (call >>= rest) ≡ ok out
    → (x : X) × (call ≡ ok x) × (rest x ≡ ok out)
ok_steps (ok x) rest h = (x, refl, h)
ok_steps (err error) rest h = ground arith
