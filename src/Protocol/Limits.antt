-- ===== src/Protocol/Limits.antt =====
-- The length limits on credentials, in shared_library/src/server_protocol.rs, and the message for
-- credentials that are too long, in server/src/connection_handler.rs.
use Prim.Native.String.{len}
use stss.Prelude.{ℕ, ◌≡◌, ◌≤◌, ◌↔◌, Bool, Option, none, some, String, arith, leb, if◌then◌else◌}

abbrev pub max_username_len : ℕ
max_username_len = 32

abbrev pub max_password_len : ℕ
max_password_len = 32

-- `str::len` counts bytes.
unfoldable pub is_username_length_valid : String → Bool
is_username_length_valid username = leb (len username) max_username_len

unfoldable pub is_password_length_valid : String → Bool
is_password_length_valid password = leb (len password) max_password_len

unfoldable pub credentials_length_error : String → String → Option String
unfolding is_username_length_valid is_password_length_valid
credentials_length_error username password =
    if is_username_length_valid username
    then (if is_password_length_valid password
        then none
        else some "Password is too long. Maximum allowed length is 32 characters.")
    else some "Username is too long. Maximum allowed length is 32 characters."

-- Credentials pass exactly when each of the two takes at most 32 bytes.
pub credentials_length_error_iff :
    (username password : String)
    → (credentials_length_error username password ≡ none)
      ↔ ((len username ≤ 32) × (len password ≤ 32))
unfolding credentials_length_error
credentials_length_error_iff username password = (λ h. ground arith, λ h. ground arith)
