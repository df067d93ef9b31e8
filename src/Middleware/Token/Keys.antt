-- ===== src/Middleware/Token/Keys.antt =====
-- internal/middleware/auth.go: the keys of the remote issuer. `jwksByK` is an association list in
-- which a key stands once.
use todo_chat_app.Prelude.{
  ℕ, ◌+◌, ◌*◌, String, not, ◌||◌, Option, none, some, List, [], ◌∷◌, str_eq, ◌==◌, if◌then◌else◌,
}
use todo_chat_app.Prelude.Int.{ℤ, pos, add_int, mul_int, ltb_ℤ}
use todo_chat_app.Prelude.Text.{is_empty}
use todo_chat_app.Outcome.{Error, Outcome, ok, err, other}

-- `rsa.PublicKey`
pub record RsaPublicKey : Type 0 where
  pub n : ℕ
  pub e : ℤ

pub record JwkKey : Type 0 where
  pub kid : String
  pub kty : String
  pub n : String
  pub e : String

pub record Process (W : Type 0) : Type 0 where
  pub world : W
  pub jwks_by_k : List (String × RsaPublicKey)

-- `m.jwksByK[kid]`, and `keys[kid] = pub`
unfoldable pub key_for : String → List (String × RsaPublicKey) → Option RsaPublicKey
key_for kid [] = none
key_for kid ((k, key) ∷ keys) =
    let rest = key_for kid keys in if str_eq k kid then some key else rest

unfoldable pub set_key :
    String → RsaPublicKey → List (String × RsaPublicKey) → List (String × RsaPublicKey)
set_key kid key [] = (kid, key) ∷ []
set_key kid key ((k, old) ∷ keys) =
    let rest = set_key kid key keys in if str_eq k kid then (kid, key) ∷ keys else (k, old) ∷ rest

-- `new(big.Int).SetBytes(b)`
abbrev pub set_bytes : ℕ → List ℕ → ℕ
set_bytes n [] = n
set_bytes n (b ∷ bs) = set_bytes (n * 256 + b) bs

-- `exponent<<8 + int(b)` for each byte, on an `int` of 64 bits
unfoldable pub exponent_from : ℤ → List ℕ → ℤ
exponent_from e [] = e
exponent_from e (b ∷ bs) = exponent_from (add_int (mul_int e (pos 256)) (pos b)) bs

abbrev pub key_of : List ℕ → ℤ → Option RsaPublicKey
key_of n exponent =
    if not (ltb_ℤ (pos 0) exponent) then none else some (record { n = set_bytes 0 n; e = exponent })

module _ (base64 : String → Option (List ℕ)) where
  unfoldable pub decode_rsa_public_key : String → String → Option RsaPublicKey
  decode_rsa_public_key n_raw e_raw = elim (base64 n_raw) [
    | none ↦ none
    | some n ↦ elim (base64 e_raw) [ none ↦ none | some e ↦ key_of n (exponent_from (pos 0) e) ]
  ]

  abbrev pub keep_key :
      String → Option RsaPublicKey → List (String × RsaPublicKey) → List (String × RsaPublicKey)
  keep_key kid none keys = keys
  keep_key kid (some key) keys = set_key kid key keys

  -- The loop over `parsed.Keys`, from the keys gathered so far.
  unfoldable pub gather : List JwkKey → List (String × RsaPublicKey) → List (String × RsaPublicKey)
  gather [] keys = keys
  gather (k ∷ ks) keys =
      let skipped = gather ks keys in
      let taken = gather ks (keep_key k.kid (decode_rsa_public_key k.n k.e) keys) in
      if not (str_eq k.kty "RSA") || is_empty k.kid || is_empty k.n || is_empty k.e
      then skipped
      else taken

-- What `refreshJWKS` returns, with the state that it leaves.
pub data Fetched (W : Type 0) : Type 0 where
  fetched : Option Error → Process W → Fetched W

module _ {W : Type 0} (decode_jwks : String → Option (List JwkKey))
    (base64 : String → Option (List ℕ)) where
  abbrev pub installed : Process W → List (String × RsaPublicKey) → Fetched W
  installed s [] = fetched (some (other 6)) s
  installed s (k ∷ keys) = fetched none (record s { jwks_by_k = k ∷ keys })

  abbrev pub decoded : Process W → Option (List JwkKey) → Fetched W
  decoded s none = fetched (some (other 7)) s
  decoded s (some ks) = installed s (gather base64 ks [])

  -- The part of `refreshJWKS` after the request.
  unfoldable pub refreshed : Process W → Outcome W (ℕ × String) → Fetched W
  refreshed s (err e w) = fetched (some e) (record s { world = w })
  refreshed s (ok response w) =
      if response.0 == 200
      then decoded (record s { world = w }) (decode_jwks (response.1))
      else fetched (some (other 8)) (record s { world = w })
