-- ===== src/Pairing/Credential.antt =====
-- Store of daemon/internal/pairing/pairing.go: what is in memory and what the file holds. Random
-- tokens and the outcome of a save are arguments.
use phonepad.Base.{
  All, Bool, Bytes, List, Option, [], ap, arith, bytes_eq, bytes_eq_iff, false, if◌then◌else◌,
  length, none, not, refl, some, true, ℕ, ◌&&◌, ◌==◌, ◌↔◌, ◌∙◌, ◌∷◌, ◌≡◌,
}
use phonepad.Protocol.Tokens.{token_chars}

pub record PairingState : Type 0 where
  pub version : ℕ
  pub token : Bytes
  pub paired : Bool

pub record Credential : Type 0 where
  pub st : PairingState
  pub file : Option PairingState

abbrev pub state_version : ℕ
state_version = 1

-- 32 characters of the URL alphabet of base64 are 24 bytes; the others, a line break among them,
-- are refused.
unfoldable pub valid_token : Bytes → Bool
valid_token token = length token == 32 && token_chars token

-- saveLocked: the new file replaces the old one, or nothing changes.
abbrev save : Credential → PairingState → Bool → Credential × Bool
save c st saved = if saved then (record { st = st; file = some st }, true) else (c, false)

-- Open of a directory whose file decodes to the state, or that has none.
unfoldable pub open_store : Option PairingState → Option Bytes → Bool → Option Credential
open_store (some st) random saved =
    some (record { st = record st { version = state_version }; file = some st })
open_store none none saved = none
open_store none (some token) saved =
    let st : PairingState = record { version = state_version; token = token; paired = false } in
    if saved then some (record { st = st; file = some st }) else none

-- The token counts only if it is one, and the comparison reads all of it.
unfoldable pub valid : Credential → Bytes → Bool
valid c token = if not (valid_token token) then false else bytes_eq token c.st.token

unfoldable pub mark_paired : Credential → Bool → Credential × Bool
mark_paired c saved =
    if c.st.paired then (c, true) else save c (record c.st { paired = true }) saved

-- The answer is the new token, if the rotation was persisted.
unfoldable pub rotate : Credential → Option Bytes → Bool → Credential × Option Bytes
rotate c none saved = (c, none)
rotate c (some token) saved =
    let st : PairingState = record { version = state_version; token = token; paired = false } in
    if saved then ((save c st true).0, some token) else (c, none)

pub data Use : Type 0 where
  marks : Bool → Use
  rotates : Option Bytes → Bool → Use

unfoldable pub use_once : Credential → Use → Credential
use_once c (marks saved) = (mark_paired c saved).0
use_once c (rotates random saved) = (rotate c random saved).0

unfoldable pub use_all : Credential → List Use → Credential
use_all c [] = c
use_all c (u ∷ us) = use_all (use_once c u) us

-- The token of the last rotation that was persisted, or the one before.
unfoldable pub last_token : Bytes → List Use → Bytes
last_token token [] = token
last_token token (marks saved ∷ us) = last_token token us
last_token token (rotates none saved ∷ us) = last_token token us
last_token token (rotates (some new) saved ∷ us) = last_token (if saved then new else token) us

-- The random tokens are tokens.
abbrev pub DrawsTokens : Use → Type 0
DrawsTokens (marks saved) = Unit {0}
DrawsTokens (rotates none saved) = Unit {0}
DrawsTokens (rotates (some new) saved) = valid_token new ≡ true

use_all-token :
    (c : Credential) (us : List Use) → (use_all c us).st.token ≡ last_token c.st.token us
unfolding use_all use_once mark_paired rotate last_token
use_all-token c [] = refl
use_all-token c (marks saved ∷ us) =
    use_all-token (mark_paired c saved).0 us ∙ ap (λ t. last_token t us) (marked c saved)
  where
    marked : (c : Credential) (saved : Bool) → (mark_paired c saved).0.st.token ≡ c.st.token
    marked c saved = ground arith
use_all-token c (rotates none saved ∷ us) = use_all-token c us
use_all-token c (rotates (some new) true ∷ us) = use_all-token _ us
use_all-token c (rotates (some new) false ∷ us) = use_all-token c us

last_token-valid :
    (token : Bytes) (us : List Use)
    → valid_token token ≡ true
    → All DrawsTokens us
    → valid_token (last_token token us) ≡ true
unfolding last_token
last_token-valid token [] h d = h
last_token-valid token (marks saved ∷ us) h d = last_token-valid token us h d.1
last_token-valid token (rotates none saved ∷ us) h d = last_token-valid token us h d.1
last_token-valid token (rotates (some new) true ∷ us) h d = last_token-valid new us d.0 d.1
last_token-valid token (rotates (some new) false ∷ us) h d = last_token-valid token us h d.1

-- After any pairings and rotations, some of them not persisted, of a store whose token is one
-- and whose new tokens are, a
-- client is let in exactly with the token of the last rotation that was persisted, or else with the
-- first one: a rotation revokes what was there before, and one that fails revokes nothing.
pub valid-last_token :
    (c : Credential) (us : List Use) (token : Bytes)
    → valid_token c.st.token ≡ true
    → All DrawsTokens us
    → (valid (use_all c us) token ≡ true) ↔ (token ≡ last_token c.st.token us)
unfolding valid
valid-last_token c us token h d = ground (
  arith,
  use_all-token c us,
  last_token-valid c.st.token us h d,
  bytes_eq_iff token (use_all c us).st.token,
)
