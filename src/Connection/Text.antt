-- ===== src/Connection/Text.antt =====
-- The texts of the integrity violations in server/src/connection_handler.rs, with Rust's decimal
-- printing of an `i64`.
use Prim.Native.String.{◌++◌}
use stss.Prelude.{◌≡◌, refl, String, ℤ, negsuc, show_i64}

unfoldable pub token_amount_text : String → ℤ → String
unfolding show_i64
token_amount_text user amount = "invalid token amount for user " ++ user ++ ": " ++ show_i64 amount

unfoldable pub timestamp_text : String → String
timestamp_text token = "invalid timestamp of " ++ token

unfoldable pub hash_text : String → String
hash_text hash = "invalid hash: " ++ hash

token_amount_text_negative :
    token_amount_text "eve" (negsuc 41) ≡ "invalid token amount for user eve: -42"
unfolding token_amount_text
token_amount_text_negative = refl
