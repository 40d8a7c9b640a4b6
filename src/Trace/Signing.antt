-- ===== src/Trace/Signing.antt =====
-- Signing and verifying agree, and what a signature covers.
use proveno_gateway.Prelude.{ℕ, true, some, List, ok, ◌≡◌, refl, arith}
use proveno_gateway.Trace.{Trace, Crypto, signature_length, clear_signature, digest, sign, verify}

-- Documented behaviour of hex and ed25519-dalek: a signature has 64 bytes, which its hex text
-- decodes to, and a key accepts what it signed.
pub record IsSound (crypto : Crypto) : Type 0 where
  pub decode :
      (key : crypto.SigningKey) (m : List ℕ)
      → crypto.decode_hex signature_length (crypto.encode_hex (crypto.sign key m))
        ≡ some (crypto.sign key m)
  pub accept :
      (key : crypto.SigningKey) (m : List ℕ)
      → crypto.verify_strict (crypto.verifying_key key) m (crypto.sign key m) ≡ true

-- Clearing the signature of a trace after signing it gives the trace with no signature.
pub clear-sign :
    (crypto : Crypto) (t : Trace) (key : crypto.SigningKey)
    → clear_signature (sign crypto t key) ≡ clear_signature t
unfolding clear_signature sign
clear-sign crypto t key = refl

-- A trace that was signed with a key verifies under that key, whatever its signature field held
-- before.
pub verify-sign :
    (crypto : Crypto) (laws : IsSound crypto) (t : Trace) (key : crypto.SigningKey)
    → verify crypto (sign crypto t key) (crypto.verifying_key key) ≡ ok tt
unfolding verify sign digest clear_signature
verify-sign crypto laws t key = ground (
  arith,
  laws.decode key (digest crypto (clear_signature t)),
  laws.accept key (digest crypto (clear_signature t)),
)

-- Signing again gives the same trace.
pub sign_idem :
    (crypto : Crypto) (t : Trace) (key : crypto.SigningKey)
    → sign crypto (sign crypto t key) key ≡ sign crypto t key
unfolding sign clear_signature
sign_idem crypto t key = refl
