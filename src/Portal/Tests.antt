-- ===== src/Portal/Tests.antt =====
-- A farmer who is added, changes her password, logs in, and is disabled.
use Prim.Native.Char.{code}
use olivechain.Base.{
  ℕ, zero, suc, ◌+◌, String, true, false, none, some, List, [], ◌∷◌, Dict, lookup, insert, update,
  contains, eqb, ◌≡◌, refl, ◌∙◌, ap, arith, if◌then◌else◌, ◌==◌,
}
use olivechain.Base.Int.{pos}
use olivechain.Base.Sort.{sort_by}
use olivechain.Json.{Value, boolean, str, to_fields, of_fields}
use olivechain.Json.Access.{get_or, truthy, to_int, same_key}
use olivechain.Json.Sorted.{sorted, map_option}
use olivechain.Result.{ok, err}
use olivechain.World.{floats}
use olivechain.Portal.Digest.{same_bytes}
use olivechain.Portal.Identity.{
  PortalLibrary, PortalIdentity, fail, is_username, validate_identity, validate_password,
  normalize_username, password_digest,
}
use olivechain.Portal.Login.{authenticate_user}
use olivechain.Portal.Login.Stored.{login_result}
use olivechain.Portal.NewUser.{NewUser, admit, user_columns}
use olivechain.Portal.NewUser.Bounds.{IsAdmissible}
use olivechain.Portal.Payload.{payload}
use olivechain.Portal.Rows.{find_row, set_row, copy_row, row_get, public_user, pick_user}
use olivechain.Portal.Rows.Accounts.{AreAccounts}
use olivechain.Portal.Rows.Stored.{stored}
use olivechain.Portal.Secret.{load_or_create_secret, load_or_create_secret-again}
use olivechain.Portal.Session.{PortalSession, session_of}
use olivechain.Portal.Store.{UsersFile, Store, missing, load_store, write_store}
use olivechain.Base.Texts.{split_at}
use olivechain.Portal.Token.{of_name, create_session, parse_session}
use olivechain.Portal.Token.Authentic.{IsLive, parse_session-IsLive}
use olivechain.Portal.Token.Round.{AreTexts, create_session-parse_session}
use olivechain.Portal.Users.{add_user, get_user, set_user_password, set_user_status}
use olivechain.Portal.Users.Added.{Loads, add_user-Admits, add_user-authenticate_user}
use olivechain.Portal.Users.Passwords.{set_user_password-authenticate_user}
use olivechain.Portal.Users.Runs.{
  Call, add, change_password, change_status, run, accounts_after_any_run,
}
use olivechain.Portal.Users.Status.{set_user_status-Disables}

-- Numbers in unary, each ended by a zero, stand for base64.
ones : ℕ → String → String
ones zero s = s
ones (suc n) s = String.◌∷◌ "1" (ones n s)

text_of : List ℕ → String
text_of [] = ""
text_of (n ∷ ns) = ones n (String.◌∷◌ "0" (text_of ns))

numbers : ℕ → String → List ℕ
numbers n String.[] = []
numbers n (String.◌∷◌ c s) = elim (eqb (code c) 48) [
  | true ↦ n ∷ numbers 0 s
  | false ↦ numbers (n + 1) s
]

numbers-ones :
    (n k : ℕ) (s : String) → numbers k (ones n (String.◌∷◌ "0" s)) ≡ (k + n) ∷ numbers 0 s
unfolding numbers ones
numbers-ones zero k s = ap (λ n. n ∷ numbers 0 s) (omega arith)
numbers-ones (suc n) k s = numbers-ones n (k + 1) s ∙ ap (λ n. n ∷ numbers 0 s) (omega arith)

numbers-text_of : (ns : List ℕ) → numbers 0 (text_of ns) ≡ ns
unfolding text_of numbers
numbers-text_of [] = refl
numbers-text_of (n ∷ ns) =
    numbers-ones n 0 (text_of ns)
    ∙ ap (λ r. (0 + n) ∷ r) (numbers-text_of ns)
    ∙ ap (λ k. k ∷ ns) (omega arith)

abbrev csrf : String
csrf = "0123456789ABCDEF0123"

-- The digest of a password is its first byte, and there is one payload and one seal.
abbrev library : PortalLibrary
library = record {
  strip = λ s. s;
  lower = λ s. s;
  title = λ s. s;
  pbkdf2 = λ password salt n. elim password [ [] ↦ [] | b ∷ bs ↦ b ∷ [] ];
  b64encode = text_of;
  b64decode = λ s. some (numbers 0 s);
  b64url = λ bytes. "payload";
  seal = λ encoded. "seal";
  load_payload = λ encoded. some (stored (payload (str "anna") 1000 2000 csrf "nonce"));
}

decodes : (bytes : List ℕ) → library.b64decode (library.b64encode bytes) ≡ some bytes
decodes bytes = ap some (numbers-text_of bytes)

abbrev anna : NewUser
anna = record {
  username = "anna";
  display_name = "Anna";
  org_id = "farmer-org";
  role = "farmer";
  password = "a long one";
  identity_alias = "farmer";
  client_id_hash = "";
  created_by = "system";
}

abbrev salt : List ℕ
salt = 1 ∷ 2 ∷ []

anna-Added :
    (shown : Dict Value) × (s : UsersFile) × (add_user library floats anna 1000 salt missing
      ≡ (ok shown, s))
unfolding add_user admit normalize_username is_username validate_identity validate_password
    load_store public_user lookup user_columns row_get to_int truthy to_fields of_fields
anna-Added = (_, _, refl)

add_user-Admits_example :
    (name : String) × (spec : PortalIdentity) × (store : Store) × (rows : Dict Value) × IsAdmissible
      library anna name spec
    × ((load_store library floats 1000 missing).0 ≡ ok store)
    × (contains name store.users ≡ false)
    × Loads library floats 1500 anna-Added.1 rows
    × ((other : String)
        → lookup other rows ≡ (
            if name == other
            then some (stored (user_columns library name "Anna" spec 1000 salt anna))
            else map_option (lookup other store.users)))
add_user-Admits_example =
    add_user-Admits library floats refl anna 1000 salt missing anna-Added.1 anna-Added.0
      anna-Added.2 1500

add_user-authenticate_user_example :
    (row : Dict Value) × (get_user library floats "anna" true 1500 anna-Added.1
      ≡ (ok row, anna-Added.1))
    × (authenticate_user library floats "anna" "a long one" 1500 anna-Added.1 ≡ (
      (if same_bytes
            (password_digest library "a long one" salt)
            (password_digest library "a long one" salt)
          then ok row
          else err (fail "invalid username or password")),
      anna-Added.1,
    ))
add_user-authenticate_user_example =
    add_user-authenticate_user library floats refl decodes anna 1000 salt missing anna-Added.1
      anna-Added.0 anna-Added.2 "a long one" 1500

anna-Changed :
    (s : UsersFile) × (set_user_password library floats "anna" "b long one" 1100 salt anna-Added.1
      ≡ (ok tt, s))
unfolding set_user_password anna-Added normalize_username is_username validate_password write_store
    load_store find_row set_row sorted sort_by insert lookup update user_columns same_key to_fields
    of_fields
anna-Changed = (_, refl)

set_user_password-authenticate_user_example :
    (row : Dict Value) × (get_user library floats "anna" false 1500 anna-Changed.0
      ≡ (ok row, anna-Changed.0))
    × (authenticate_user library floats "anna" "a long one" 1500 anna-Changed.0 ≡ (
      login_result
          (same_bytes
            (password_digest library "b long one" salt)
            (password_digest library "a long one" salt))
          (truthy floats (get_or (boolean true) "active" row))
          row,
      anna-Changed.0,
    ))
set_user_password-authenticate_user_example =
    set_user_password-authenticate_user library floats refl decodes "anna" "b long one" 1100 salt
      anna-Added.1 anna-Changed.0 anna-Changed.1 "a long one" 1500

anna-Disabled :
    (shown : Dict Value) × (s : UsersFile) × (set_user_status library floats "anna" false 1100
        anna-Added.1
      ≡ (ok shown, s))
unfolding set_user_status anna-Added normalize_username is_username write_store load_store find_row
    set_row sorted sort_by insert lookup update user_columns same_key to_fields of_fields
    public_user row_get to_int truthy
anna-Disabled = (_, _, refl)

set_user_status-Disables_example :
    (get_user library floats "anna" true 1500 anna-Disabled.1
      ≡ (err (fail "user is disabled"), anna-Disabled.1))
    × ((row : Dict Value)
        → ¬ (
            (authenticate_user library floats "anna" "a long one" 1500 anna-Disabled.1).0 ≡ ok row))
set_user_status-Disables_example =
    set_user_status-Disables library floats refl "anna" 1100 anna-Added.1 anna-Disabled.1
      anna-Disabled.0 anna-Disabled.2 "a long one" 1500

abbrev calls : List (Call × ℕ × List ℕ)
calls =
    (add anna, 1000, salt)
    ∷ (change_password ("anna" ∷ "short" ∷ []), 1100, salt)
    ∷ (change_status "anna" false, 1200, salt)
    ∷ []

accounts_after_any_run_example :
    (store : Store) × (load_store library floats 1500 (run library floats calls missing)
      ≡ (ok store, run library floats calls missing))
    × AreAccounts store.users
accounts_after_any_run_example = accounts_after_any_run library floats refl calls 1500

library-AreTexts : AreTexts library floats
library-AreTexts = record {
  same_text = λ t. refl;
  undotted = λ bytes. refl;
  ascii = λ bytes. refl;
  ascii_seal = λ t. refl;
}

-- Anna's row, and the session that is made of it at her login.
anna-Row :
    (row : Dict Value) × (get_user library floats "anna" true 1500 anna-Added.1
      ≡ (ok row, anna-Added.1))
unfolding get_user anna-Added normalize_username is_username write_store load_store pick_user
    find_row copy_row row_get sorted sort_by insert lookup user_columns same_key to_fields of_fields
    truthy
anna-Row = (_, refl)

anna-Session :
    (token : String) × (session : PortalSession) × (s : UsersFile) × (create_session library floats
        1000
        (of_name "anna")
        1000
        csrf
        "nonce"
        anna-Added.1
      ≡ (ok (token, session), s))
    × (session.username ≡ str "anna")
    × (session_of floats anna-Row.0 (pos 1000) (pos 2000) csrf ≡ ok session)
unfolding create_session session_of anna-Row get_user anna-Added normalize_username is_username
    write_store load_store pick_user find_row copy_row row_get sorted sort_by insert lookup
    user_columns same_key to_fields of_fields truthy
anna-Session = (_, _, _, refl, refl, refl)

create_session-parse_session_example :
    parse_session library floats (some anna-Session.0) 1500 anna-Added.1
    ≡ (ok (some anna-Session.1), anna-Added.1)
create_session-parse_session_example =
    create_session-parse_session library floats refl library-AreTexts 1000 (of_name "anna") 1000
      csrf "nonce" anna-Session.0 anna-Session.1 anna-Added.1 anna-Session.2 anna-Session.3 "anna"
      1500 anna-Added.1 anna-Added.1 anna-Row.0 anna-Session.4 anna-Row.1 anna-Session.5 refl
      (omega arith) (omega arith) (omega arith)

parse_session-IsLive_example :
    (encoded supplied : String) × (payload : Value) × (split_at 46 anna-Session.0
      ≡ some (encoded, supplied))
    × (library.seal encoded ≡ supplied)
    × (library.load_payload encoded ≡ some payload)
    × IsLive library floats payload 1500 anna-Added.1 anna-Added.1 anna-Session.1
parse_session-IsLive_example =
    parse_session-IsLive library floats anna-Session.0 1500 anna-Added.1 anna-Added.1 anna-Session.1
      create_session-parse_session_example

-- The one text that is read back from the secret's file.
abbrev secret_text : String
secret_text = "0123456789ABCDEF0123456789ABCDEF"

abbrev secret_library : PortalLibrary
secret_library = record library { strip = λ s. if s == "" then "" else secret_text }

load_or_create_secret-again_example :
    load_or_create_secret secret_library
      (λ bytes. bytes)
      ""
      "a later one"
      (load_or_create_secret secret_library (λ bytes. bytes) "" secret_text none).1
    ≡ load_or_create_secret secret_library (λ bytes. bytes) "" secret_text none
load_or_create_secret-again_example =
    load_or_create_secret-again secret_library (λ bytes. bytes) "" secret_text "a later one" none
      refl (omega arith)
