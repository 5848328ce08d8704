-- ===== src/Base/Outcome.antt =====
-- Python's exceptions as values. `Error` names the exceptions that the modelled code raises.
use mathlib.Core.Path.{◌≡◌, refl}

pub data Error : Type 0 where
  struct_error eof_error socket_timeout socket_error pipe_timeout : Error
  mismatched_mac invalid_blocking seqno_rollover rekey_ignored : Error
  ssh_exception incompatible_peer message_order_error overflow_error ber_exception : Error
  attribute_error type_error key_error gss_error index_error need_rekey_exception io_error : Error
  assertion_error binascii_error invalid_host_key config_parse_error value_error
        could_not_canonicalize :
      Error

-- What a call ends with: the exception that it raises, or its value.
pub data Result {ℓ} (Value : Type ℓ) : Type ℓ where
  err : (raised : Error) → Result Value
  ok : (value : Value) → Result Value

pub ok-injective {ℓ} : {Value : Type ℓ} {v w : Value} → ok v ≡ ok w → v ≡ w
ok-injective same = cc

-- The statements after a call run on its value, and only when it does not raise.
module _ {ℓ κ} {First : Type ℓ} {Last : Type κ} where
  infixl 4 ◌>>=◌
  abbrev pub ◌>>=◌ : (call : Result First) (next : First → Result Last) → Result Last
  err raised >>= next = err raised
  ok value >>= next = next value

  -- A chain that ends with a value took its value from each call.
  pub >>=-eq-ok :
      (call : Result First) (next : First → Result Last) {last : Last}
      → (call >>= next) ≡ ok last
      → (value : First) × (call ≡ ok value) × (next value ≡ ok last)
  >>=-eq-ok (err raised) next same = cc
  >>=-eq-ok (ok value) next same = (value, refl, same)
