-- ===== src/Pairing/Tests.antt =====
-- A code that two phones claim, and a credential that is rotated.
use phonepad.Base.{
  Bytes, [], arith, ascii, bytes_eq, false, none, refl, some, true, ◌<◌, ◌↔◌, ◌∷◌, ◌≡◌,
}
use phonepad.Protocol.Tokens.{token_chars}
use phonepad.Pairing.Credential.{
  Credential, last_token, marks, rotates, use_all, valid, valid-last_token, valid_token,
}
use phonepad.Pairing.Codes.{PairCode, claim, claim_once, claims, handle_all, issue, issues}

abbrev qr_code : Bytes
qr_code = ascii "abcdefghijklmnopqrstuvwxyz012345"

abbrev shown : PairCode
shown = issue (record { code = []; expires = 0 }) 1000 (some qr_code)

claim_succeeds : (claim shown 2000 qr_code).1 ≡ true
unfolding claim issue bytes_eq
claim_succeeds = refl

claim_once_example :
    (2000 < shown.expires)
    × ((claim
          (handle_all
            (claim shown 2000 qr_code).0
            (issues 3000 (some (ascii "ABCDEFGHIJKLMNOPQRSTUVWXYZ012345")) ∷ claims 3500 [] ∷ []))
          4000
          qr_code).1
        ≡ false)
claim_once_example =
    claim_once shown 2000 qr_code
      (issues 3000 (some (ascii "ABCDEFGHIJKLMNOPQRSTUVWXYZ012345")) ∷ claims 3500 [] ∷ []) 4000
      claim_succeeds (ground arith, (tt, tt))

abbrev first_token : Bytes
first_token = ascii "abcdefghijklmnopqrstuvwxyz-_0123"

abbrev second_token : Bytes
second_token = ascii "0123456789012345678901234567ABCD"

abbrev credential : Credential
credential = record {
  st = record { version = 1; token = first_token; paired = false };
  file = none;
}

valid-last_token_example :
    (valid (use_all credential (marks true ∷ rotates (some second_token) false ∷ [])) first_token
      ≡ true)
    ↔ (first_token ≡ last_token first_token (marks true ∷ rotates (some second_token) false ∷ []))
unfolding valid_token token_chars
valid-last_token_example =
    valid-last_token credential (marks true ∷ rotates (some second_token) false ∷ []) first_token
      refl (tt, (refl, tt))
