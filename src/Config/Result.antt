-- ===== src/Config/Result.antt =====
-- The errors of internal/config, and a result that carries one. The texts of the messages are not
-- modelled; a constructor keeps what a message names.
use supavisor.Prelude.{◌≡◌, refl, Bool, true, false, Str}

pub data ConfigError : Type 0 where
  command_required : ConfigError
  invalid_autorestart : Str → ConfigError
  user_not_implemented : Str → ConfigError
  invalid_stopsignal : Str → ConfigError
  must_not_be_negative : (field : Str) → ConfigError
  invalid_bytes : (field value : Str) → ConfigError
  no_probe_target : ConfigError
  many_probe_targets : ConfigError
  invalid_tcp : Str → ConfigError
  invalid_http : Str → ConfigError
  invalid_duration : (field value : Str) → ConfigError
  interval_not_positive : ConfigError
  timeout_not_positive : ConfigError
  start_period_negative : ConfigError
  too_few_retries : ConfigError
  unknown_dependency : (name dep : Str) → ConfigError
  no_health_check : (name dep : Str) → ConfigError
  never_completes : (name dep : Str) → ConfigError
  shared_log : (owner name path : Str) → ConfigError
  circular_dependency : (name dep : Str) → ConfigError
  socket_too_long : (bytes : Str) → ConfigError
  unreadable_file : (path : Str) → ConfigError
  malformed_file : (path : Str) → ConfigError
  unreadable_fragments : (dir : Str) → ConfigError
  fragment_has_settings : (path : Str) → ConfigError
  duplicate_program : (name path other : Str) → ConfigError
  invalid_depends_on : ConfigError
  invalid_entry : (name : Str) → ConfigError
  unknown_entry_key : (name key : Str) → ConfigError
  invalid_condition : (name value : Str) → ConfigError
  bad_program : (name path : Str) → ConfigError → ConfigError

pub data Result {ℓ} (A : Type ℓ) : Type ℓ where
  err : ConfigError → Result A
  ok : A → Result A

-- `if !test { return e }`
abbrev pub guard : Bool → ConfigError → Result (Unit {0})
guard false e = err e
guard true e = ok tt

infixl 5 ◌>>=◌ ◌>>◌
abbrev pub ◌>>=◌ {κ ℓ} : {B : Type κ} {A : Type ℓ} → Result B → (B → Result A) → Result A
err e >>= next = err e
ok b >>= next = next b

abbrev pub ◌>>◌ {ℓ} : {A : Type ℓ} → Result (Unit {0}) → Result A → Result A
first >> later = first >>= λ _. later

-- What holds of the value of a bind that succeeds.
pub >>=-eq-ok {κ ℓ} :
    {B : Type κ} {A : Type ℓ} {a : A} (first : Result B) (next : B → Result A)
    → (first >>= next) ≡ ok a
    → (b : B) × (first ≡ ok b) × (next b ≡ ok a)
>>=-eq-ok (err e) next h = cc
>>=-eq-ok (ok b) next h = (b, refl, h)

pub guard-true : (t : Bool) (e : ConfigError) {u : Unit {0}} → guard t e ≡ ok u → t ≡ true
guard-true true e h = refl
guard-true false e h = cc

pub ok-injective {ℓ} : {A : Type ℓ} {a b : A} → ok a ≡ ok b → a ≡ b
ok-injective h = cc
