-- ===== src/Tests/Store.antt =====
-- The theorems on the database, over one with a single user.
use stss.Prelude.{
  ℕ, ◌≤◌, ◌≡◌, refl, some, List, [], ◌∷◌, ◌++◌, String, ok, arith, replicate, map, take, length,
  All,
}
use stss.Protocol.{RsaSignature}
use stss.Bytes.{memcmp}
use stss.Protocol.Signing.{signature_try_from}
use stss.Protocol.Timestamps.{new}
use stss.Database.{
  verify_user_password, try_register_user, insert_account, add_user_tokens, subtract_user_tokens,
  add_user_record, get_user_history, collect_rows, parse_row,
}
use stss.Database.Schema.{
  HistoryRow, insert_desc, find_user, insert_user, has_record, insert_record, records_of, sort_desc,
  select_history,
}
use stss.Database.Monad.{Sqlite, next_fault}
use stss.Database.Tokens.{
  AddPost, SubtractPost, add_user_tokens-AddPost, subtract_user_tokens-SubtractPost,
}
use stss.Database.Accounts.{RegisterPost, try_register_user-RegisterPost, verify-register}
use stss.Database.Records.{RecordPost, row_of, add_user_record-RecordPost}
use stss.Database.History.{
  IsRow, HistoryPost, IsNewestFirst, record_of, get_user_history-HistoryPost,
  get_user_history-IsNewestFirst,
}
use stss.Database.Recall.{IsNewer, quiet, history-add_record}
use stss.Tests.Toy.{toy_hasher, toy_hasher-IsPasswordHasher, tables, tables-IsValid, ada-Holds}

abbrev shop : Sqlite
shop = record { tables = tables; faults = [] }

abbrev signature : RsaSignature
signature = record { bytes = replicate 256 9 }

abbrev no_hex : List ℕ → String
no_hex bytes = ""

add_user_tokens-AddPost_example : AddPost "ada" 4 (some 3) shop (add_user_tokens "ada" 4 shop)
add_user_tokens-AddPost_example =
    add_user_tokens-AddPost "ada" 4 (some 3) shop tables-IsValid.accounts ada-Holds

subtract_user_tokens-SubtractPost_example :
    SubtractPost "ada" 5 (some 3) shop (subtract_user_tokens "ada" 5 shop)
subtract_user_tokens-SubtractPost_example =
    subtract_user_tokens-SubtractPost "ada" 5 (some 3) shop tables-IsValid.accounts ada-Holds

try_register_user-RegisterPost_example :
    RegisterPost toy_hasher "bob" "pass" "10.0.0.8" "salt" shop
      (try_register_user toy_hasher "bob" "pass" "10.0.0.8" "salt" shop)
try_register_user-RegisterPost_example =
    try_register_user-RegisterPost toy_hasher "bob" "pass" "10.0.0.8" "salt" shop

abbrev with_bob : Sqlite
with_bob = record {
  tables = (try_register_user toy_hasher "bob" "pass" "10.0.0.8" "salt" shop).1.tables;
  faults = [];
}

bob_registered : (try_register_user toy_hasher "bob" "pass" "10.0.0.8" "salt" shop).0 ≡ ok tt
unfolding try_register_user insert_account insert_user find_user next_fault
bob_registered = refl

verify-register_example : (verify_user_password toy_hasher "bob" "pass" with_bob).0 ≡ ok tt
verify-register_example =
    verify-register toy_hasher "bob" "pass" "10.0.0.8" "salt" shop with_bob
      toy_hasher-IsPasswordHasher bob_registered refl refl

add_user_record-RecordPost_example :
    RecordPost "ada" (new 1005) signature shop (add_user_record "ada" (new 1005) signature shop)
add_user_record-RecordPost_example = add_user_record-RecordPost "ada" (new 1005) signature shop

get_user_history-HistoryPost_example :
    HistoryPost no_hex "ada" shop (get_user_history no_hex "ada" shop)
get_user_history-HistoryPost_example = get_user_history-HistoryPost no_hex "ada" shop tt

recorded : (add_user_record "ada" (new 1005) signature shop).0 ≡ ok tt
unfolding add_user_record find_user insert_record has_record next_fault
recorded = refl

no_others : IsNewer (row_of "ada" (new 1005) signature) (records_of "ada" [])
unfolding records_of
no_others = tt

history-add_record_example :
    (get_user_history no_hex "ada"
      (quiet (add_user_record "ada" (new 1005) signature shop).1.tables)).0
    ≡ ok (
        record { sign = signature; timestamp = new 1005 }
        ∷ map record_of (take 99 (sort_desc (records_of "ada" []))))
history-add_record_example =
    history-add_record no_hex "ada" (new 1005) signature shop tt (omega arith) refl no_others
      recorded

-- Two records of one user, the older one first.
abbrev row : ℕ → HistoryRow
row n = record { username = "ada"; timestamp = replicate 15 0 ++ n ∷ []; hash = signature.bytes }

abbrev busy : Sqlite
busy = record {
  tables = record { users = tables.users; history = row 5 ∷ row 6 ∷ [] };
  faults = [];
}

rows-IsRow : All IsRow busy.tables.history
rows-IsRow = ((refl, ground arith, refl), ((refl, ground arith, refl), tt))

listed : (get_user_history no_hex "ada" busy).0 ≡ ok (record_of (row 6) ∷ record_of (row 5) ∷ [])
unfolding get_user_history collect_rows parse_row signature_try_from find_user select_history
    records_of sort_desc insert_desc memcmp next_fault
listed = refl

get_user_history-IsNewestFirst_example :
    (length (record_of (row 6) ∷ record_of (row 5) ∷ []) ≤ 100)
    × IsNewestFirst (record_of (row 6) ∷ record_of (row 5) ∷ [])
get_user_history-IsNewestFirst_example =
    get_user_history-IsNewestFirst no_hex "ada" busy (record_of (row 6) ∷ record_of (row 5) ∷ [])
      rows-IsRow listed
