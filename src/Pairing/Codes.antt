-- ===== src/Pairing/Codes.antt =====
-- issuePairURL and handleClaim of daemon/internal/server/session.go: the code in the QR of the host.
-- Times are in nanoseconds; random codes are arguments.
use phonepad.Base.{
  All, Bool, Bytes, List, Option, [], arith, bytes_eq, bytes_eq_iff, false, if◌then◌else◌, is_empty,
  length, ltb, none, not, some, sym, true, ℕ, ◌&&◌, ◌*◌, ◌+◌, ◌<◌, ◌==◌, ◌^◌, ◌||◌, ◌∙◌, ◌∷◌, ◌≡◌,
  ◌≢◌,
}

pub record PairCode : Type 0 where
  pub code : Bytes
  pub expires : ℕ

abbrev pub pairing_lifetime : ℕ
pairing_lifetime = 120 * 10 ^ 9

-- A code that is there and not over is shown again.
unfoldable pub issue : PairCode → ℕ → Option Bytes → PairCode
issue p now random =
    let drawn : PairCode = elim random [
      | none ↦ p
      | some code ↦ record { code = code; expires = now + pairing_lifetime }
    ] in
    if is_empty p.code || ltb p.expires now then drawn else p

-- Whether the claim gets the token.
unfoldable pub claim : PairCode → ℕ → Bytes → PairCode × Bool
claim p now code =
    if length code == 32 && not (is_empty p.code) && ltb now p.expires && bytes_eq code p.code
    then (record { code = []; expires = 0 }, true)
    else (p, false)

pub data Event : Type 0 where
  issues : ℕ → Option Bytes → Event
  claims : ℕ → Bytes → Event

unfoldable pub handle : PairCode → Event → PairCode
handle p (issues now random) = issue p now random
handle p (claims now code) = (claim p now code).0

unfoldable pub handle_all : PairCode → List Event → PairCode
handle_all p [] = p
handle_all p (e ∷ es) = handle_all (handle p e) es

-- The event does not draw the code again.
abbrev pub DrawsOther : Bytes → Event → Type 0
DrawsOther code (issues now none) = Unit {0}
DrawsOther code (issues now (some new)) = new ≢ code
DrawsOther code (claims now other) = Unit {0}

issue-apart :
    (p : PairCode) (now : ℕ) (random : Option Bytes) (code : Bytes)
    → p.code ≢ code
    → DrawsOther code (issues now random)
    → (issue p now random).code ≢ code
unfolding issue
issue-apart p now none code h d = ground arith
issue-apart p now (some new) code h d = ground arith

claim-apart :
    (p : PairCode) (now : ℕ) (other code : Bytes)
    → p.code ≢ code
    → code ≢ []
    → (claim p now other).0.code ≢ code
unfolding claim
claim-apart p now other code h n = ground arith

handle_all-apart :
    (p : PairCode) (es : List Event) (code : Bytes)
    → code ≢ []
    → p.code ≢ code
    → All (DrawsOther code) es
    → (handle_all p es).code ≢ code
unfolding handle_all handle
handle_all-apart p [] code n h d = h
handle_all-apart p (issues now random ∷ es) code n h d =
    handle_all-apart (issue p now random) es code n (issue-apart p now random code h d.0) d.1
handle_all-apart p (claims now other ∷ es) code n h d =
    handle_all-apart (claim p now other).0 es code n (claim-apart p now other code h n) d.1

-- What a claim that succeeds says of the code, and what it leaves.
claimed :
    (p : PairCode) (now : ℕ) (code : Bytes)
    → (claim p now code).1 ≡ true
    → (code ≢ []) × ((claim p now code).0.code ≡ []) × (now < p.expires) × (p.code ≡ code)
unfolding claim
claimed p now code h = ground (arith, bytes_eq_iff code p.code)

refused : (p : PairCode) (now : ℕ) (code : Bytes) → p.code ≢ code → (claim p now code).1 ≡ false
unfolding claim
refused p now code h = ground (arith, bytes_eq_iff code p.code)

-- A code gets the token once: after a claim that succeeded, which was before the code's end, every
-- later claim with the same code is refused, whatever was claimed and shown in between, unless the
-- source of random bytes draws the very code again.
pub claim_once :
    (p : PairCode) (now : ℕ) (code : Bytes) (es : List Event) (later : ℕ)
    → (claim p now code).1 ≡ true
    → All (DrawsOther code) es
    → (now < p.expires) × ((claim (handle_all (claim p now code).0 es) later code).1 ≡ false)
claim_once p now code es later h d =
    let (some_code, gone, early, same) = claimed p now code h in
    (
      early,
      refused _ later code (
          handle_all-apart (claim p now code).0 es code some_code (λ e. some_code (sym e ∙ gone))
            d),
    )
