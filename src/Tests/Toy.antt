-- ===== src/Tests/Toy.antt =====
-- Stand-ins for the crates that the model takes as parameters, simple enough to compute: they satisfy
-- the documented laws.
use stss.Prelude.{
  ℕ, zero, suc, ◌+◌, ◌≡◌, refl, sym, ap, ◌∙◌, Bool, true, false, List, [], ◌∷◌, ◌++◌, String,
  Result, ok, err, length, take, replicate, ◌==◌, ==_iff, eq_iff, str_eq, ◌&&◌, if◌then◌else◌,
  arith, pos, length-append, Bool-cases, inl, inr,
}
use stss.Protocol.{Sha256Hash, Request, Response}
use stss.Protocol.Signing.{Crypto, IsKeyPair}
use stss.Protocol.Codec.{Codec}
use stss.Database.{PasswordHasher, IsPasswordHasher}
use stss.Database.Schema.{Tables, UserRow, find_user}
use stss.Database.Tokens.{Holds}
use stss.Database.Safety.{IsValid}
use stss.Connection.Types.{Externals}

abbrev pub same : List ℕ → List ℕ → Bool
same [] [] = true
same [] (y ∷ ys) = false
same (x ∷ xs) [] = false
same (x ∷ xs) (y ∷ ys) = (x == y) && same xs ys

same_refl : (xs : List ℕ) → same xs xs ≡ true
same_refl [] = refl
same_refl (x ∷ xs) = ground (arith, same_refl xs, ==_iff x x)

same_sound : (xs ys : List ℕ) → same xs ys ≡ true → xs ≡ ys
same_sound [] [] e = refl
same_sound [] (y ∷ ys) e = cc
same_sound (x ∷ xs) [] e = cc
same_sound (x ∷ xs) (y ∷ ys) e = ground (arith, same_sound xs ys, ==_iff x y)

-- The signature of a 48-byte message is the message, filled up to 256 bytes.
abbrev pub pad : List ℕ
pad = replicate 208 0

abbrev pub toy_sign : List ℕ → Result String (List ℕ)
toy_sign m = if length m == 48 then ok (m ++ pad) else err "message length"

abbrev pub toy_verify : List ℕ → List ℕ → Result String (Unit {0})
toy_verify m s = if same m (take 48 s) then ok tt else err "verification"

abbrev pub toy_crypto : Crypto
toy_crypto = record {
  RsaPrivateKey = Bool;
  RsaPublicKey = Bool;
  sha256 = λ m. m;
  sign = λ _. toy_sign;
  verify = λ _. toy_verify;
}

take-length : (xs ys : List ℕ) → take (length xs) (xs ++ ys) ≡ xs
take-length [] ys = refl
take-length (x ∷ xs) ys = ap (λ zs. x ∷ zs) (take-length xs ys)

signed : (m s : List ℕ) → toy_sign m ≡ ok s → (length m ≡ 48) × (s ≡ m ++ pad)
signed m s e = elim (Bool-cases (length m == 48)) [
  | inl p ↦ ((==_iff (length m) 48).0 p, ground arith)
  | inr p ↦ absurd (ground arith)
]

message : (m s : List ℕ) → toy_sign m ≡ ok s → take 48 s ≡ m
message m s e =
    let (len, text) = signed m s e in
    ap (take 48) text ∙ ap (λ n. take n (m ++ pad)) (sym len) ∙ take-length m pad

accepted : (n s : List ℕ) → toy_verify n s ≡ ok tt → same n (take 48 s) ≡ true
accepted n s v = elim (Bool-cases (same n (take 48 s))) [
  | inl p ↦ p
  | inr p ↦ absurd (ground arith)
]

pub toy_pair : IsKeyPair toy_crypto true true
toy_pair = record {
  sign_length = λ m s e.
      ap length (signed m s e).1 ∙ length-append m pad ∙ ap (λ n. n + 208) (signed m s e).0;
  verify_sign = λ m s e. rw (message m s e, same_refl m) refl;
  verify_unique = λ m n s e v. same_sound n (take 48 s) (accepted n s v) ∙ message m s e;
}

abbrev pub toy_hasher : PasswordHasher
toy_hasher = record {
  PasswordHash = String;
  hash_password = λ password salt. ok password;
  parse = λ stored. ok stored;
  verify_password = λ password stored. str_eq password stored;
}

pub toy_hasher-IsPasswordHasher : IsPasswordHasher toy_hasher
toy_hasher-IsPasswordHasher = record {
  verify-hash = λ password salt stored e. (stored, refl, ground (arith, eq_iff password stored));
}

abbrev pub toy_hash : Sha256Hash
toy_hash = record { bytes = replicate 32 7 }

-- One byte stands for a whole request.
abbrev pub toy_request : List ℕ → Result String Request
toy_request [] = err "empty"
toy_request (zero ∷ rest) = ok (Request.login "ada" "secret")
toy_request (suc zero ∷ rest) = ok (Request.sign_hash toy_hash)
toy_request (suc (suc zero) ∷ rest) = ok Request.log_out
toy_request (_ ∷ rest) = ok (Request.sign_up "bob" "pass")

abbrev pub toy_codec : Codec
toy_codec = record {
  serialize_request = λ r. ok [];
  deserialize_request = toy_request;
  serialize_response = λ r. ok [];
  deserialize_response = λ bytes. ok Response.ok;
}

abbrev pub toy : Externals
toy = record {
  crypto = toy_crypto;
  codec = toy_codec;
  hasher = toy_hasher;
  hex_encode = λ bytes. "";
  max_frame_length = 4096;
}

abbrev pub ada : UserRow
ada = record {
  username = "ada";
  password_hash = "secret";
  available_tokens = pos 3;
  registered_from_ip = "10.0.0.7";
}

abbrev pub tables : Tables
tables = record { users = ada ∷ []; history = [] }

pub tables-IsValid : IsValid tables
unfolding find_user
tables-IsValid = record {
  accounts = record { keyed = (refl, tt); in_range = ((ground arith, ground arith), tt) };
  rows = tt;
  owned = tt;
  unique = tt;
}

pub ada-Holds : Holds "ada" tables 3
unfolding find_user
ada-Holds = record { tokens = refl; bound = omega arith }
