-- ===== src/Wallet/Tests.antt =====
-- A wallet that logs in, and then sends the same answer again.
use olivechain.Base.{
  arith, String, ◌≡◌, refl, some, none, [], ◌∷◌, lookup, insert, erase, eqb, length, ◌<◌,
}
use olivechain.Crypto.{Crypto}
use olivechain.Result.{Result, ok, ok-injective}
use olivechain.Base.{false, true, eq_iff, List, Option, Dict}
use olivechain.Base.Int.{pos}
use olivechain.Json.{Value, int, str}
use olivechain.Json.Access.{same_key, to_int, truthy}
use olivechain.World.{crypto, floats}
use olivechain.Wallet.Session.{
  WalletSession, SessionLibrary, session_payload, create_session, session_from_wallet, open_payload,
  check_token, parse_session,
}
use olivechain.Wallet.Round.{AreTokens, parse_session-create_session}
use olivechain.Wallet.Authentic.{IsLive, parse_session-Authentic}
use olivechain.Wallet.Address.{WalletLibrary, p256, is_address, validate_address, expected_address}
use olivechain.Wallet.{
  Challenge, Challenges, purge, check_signature, verify_challenge, issue_challenge,
}
use olivechain.Wallet.Calls.{Call, verify, issue, run}
use olivechain.Wallet.Challenges.{verify_challenge-Once}

-- A public key is 32 bytes of one value, and a signature is good if it is as long as that value.
abbrev library : WalletLibrary
library = record {
  strip = λ s. s;
  upper = λ s. s;
  lower = λ s. s;
  slice_to = λ n s. s;
  decimal_text = λ n. "";
  base64_decode = λ s. some (
      2 ∷ 2 ∷ 2 ∷ 2 ∷ 2 ∷ 2 ∷ 2 ∷ 2 ∷ 2 ∷ 2 ∷ 2 ∷ 2 ∷ 2 ∷ 2 ∷ 2 ∷ 2 ∷ 2 ∷ 2 ∷ 2 ∷ 2 ∷ 2 ∷ 2 ∷ 2 ∷ 2
      ∷ 2 ∷ 2 ∷ 2 ∷ 2 ∷ 2 ∷ 2 ∷ 2 ∷ 2 ∷ []);
  base64url_decode = λ s. some (1 ∷ 1 ∷ []);
  load_public_key = λ raw. elim raw [ [] ↦ none | b ∷ bs ↦ some (p256 b) ];
  encode_signature = λ r s. r;
  ecdsa_verify = λ key signature message. eqb key (length signature);
}

abbrev hashing : Crypto
hashing = record crypto { sha256_hex = λ bytes. "0123456789ABCDEF01234567" }

abbrev wallet : String
wallet = "OLIVE-0123456789ABCDEF01234567"

abbrev issued : Challenges
issued = (issue_challenge library hashing 120 wallet "login" 1000 "nonce" []).1

login-Succeeds :
    (verify_challenge library hashing wallet "key" "signature" "login" 1050 issued).0 ≡ ok tt
unfolding verify_challenge issue_challenge validate_address expected_address is_address purge lookup
    insert
login-Succeeds = refl

wallet-Valid : validate_address library hashing wallet ≡ ok wallet
unfolding validate_address is_address
wallet-Valid = refl

abbrev other : String
other = "OLIVE-AAAAAAAAAAAAAAAAAAAAAAAA"

-- The login again, and a challenge for another wallet.
abbrev replays : List (Call library hashing)
replays =
    verify wallet "key" "signature" "register" 1051 ∷ issue 120 other "login" 1052 "nonce" ∷ []

other-Differs : ¬ (validate_address library hashing other ≡ ok wallet)
unfolding validate_address is_address
other-Differs h =
    let same : other ≡ wallet = ok-injective h in
    let equal : false ≡ true = (eq_iff other wallet).1 same in absurd (cc equal)

verify_challenge-Once_example :
    ((challenge : Challenge) × (expected_address library hashing "key" ≡ ok wallet)
      × (lookup wallet (purge 1050 issued) ≡ some challenge)
      × (1050 < challenge.expires_at)
      × (challenge.purpose ≡ "login")
      × ((check_signature library hashing challenge "key" "signature"
            (erase wallet (purge 1050 issued))).0
          ≡ ok tt))
    × ¬ (
        (verify_challenge library hashing wallet "key" "signature" "login" 1060 (
          run library hashing replays
            (verify_challenge library hashing wallet "key" "signature" "login" 1050 issued).1)).0
        ≡ ok tt)
verify_challenge-Once_example =
    verify_challenge-Once library hashing wallet wallet "key" "signature" "login" 1050 issued
      wallet-Valid login-Succeeds replays (tt, (other-Differs, tt)) wallet "key" "signature" "login"
      1060 wallet-Valid

-- Sessions under a seal that is a constant.
abbrev sessions : SessionLibrary
sessions = record {
  b64url = λ bytes. "encoded";
  seal = λ encoded. "seal";
  split_dot = λ token. some ("encoded", "seal");
  decode_payload = λ encoded. some (
      ("v", int (pos 3))
      ∷ ("iat", int (pos 1000))
      ∷ ("exp", int (pos 2000))
      ∷ ("wallet", str wallet)
      ∷ ("csrf", str "0123456789ABCDEF0123")
      ∷ []);
}

abbrev find_wallet : String → Result (Option (Dict Value))
find_wallet address = ok (some (("wallet_address", str address) ∷ ("status", str "active") ∷ []))

session-Parses :
    (s : WalletSession) × (parse_session library floats hashing sessions
        (some "encoded.seal")
        find_wallet
        1500
      ≡ ok (some s))
unfolding parse_session check_token open_payload session_from_wallet validate_address is_address
    lookup same_key to_int truthy
session-Parses = (_, refl)

parse_session-Authentic_example :
    (encoded supplied : String) × (payload : Dict Value) × (sessions.split_dot "encoded.seal"
      ≡ some (encoded, supplied))
    × (sessions.seal encoded ≡ supplied)
    × (sessions.decode_payload encoded ≡ some payload)
    × IsLive library floats hashing payload find_wallet 1500 session-Parses.0
parse_session-Authentic_example =
    parse_session-Authentic library floats hashing sessions "encoded.seal" find_wallet 1500
      session-Parses.0 session-Parses.1

-- A session that is made and read back.
abbrev csrf : String
csrf = "0123456789ABCDEF0123"

abbrev issuing : SessionLibrary
issuing = record sessions {
  decode_payload =
      λ encoded. some (session_payload library floats hashing wallet 1000 1600 csrf "nonce");
}

issuing-AreTokens : AreTokens issuing
issuing-AreTokens = record {
  plain = λ bytes. refl;
  sealed = λ text. refl;
  splits = λ bytes text. refl;
}

abbrev stored_wallet : Dict Value
stored_wallet = ("wallet_address", str wallet) ∷ ("status", str "active") ∷ []

wallet_session :
    (s : WalletSession) × (session_from_wallet library floats hashing stored_wallet
        (pos 1000)
        (pos 1600)
        csrf
      ≡ ok s)
unfolding session_from_wallet validate_address is_address lookup truthy
wallet_session = (_, refl)

session-Created :
    create_session library floats hashing issuing 600 stored_wallet 1000 csrf "nonce"
    ≡ ok ("encoded.seal", wallet_session.0)
unfolding create_session validate_address is_address lookup truthy wallet_session
session-Created = refl

parse_session-create_session_example :
    parse_session library floats hashing issuing (some "encoded.seal") find_wallet 1500
    ≡ ok (some wallet_session.0)
unfolding lookup wallet_session
parse_session-create_session_example =
    parse_session-create_session library floats hashing issuing (λ text. refl) refl
      issuing-AreTokens (λ s. refl) 600 1000 1500 stored_wallet stored_wallet
      (session_payload library floats hashing wallet 1000 1600 csrf "nonce") csrf "nonce"
      "encoded.seal" wallet_session.0 find_wallet session-Created refl refl wallet_session.1 refl
      (λ key. refl) (omega arith) (omega arith) (omega arith)
