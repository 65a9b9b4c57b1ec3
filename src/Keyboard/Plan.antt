-- ===== src/Keyboard/Plan.antt =====
-- What planText of daemon/internal/input/input.go makes of a text.
use mathlib.Core.List.{append-nil}
use phonepad.Base.{
  List, Option, Option-cases, [], ap, append_assoc, inl, inr, none, refl, some, sym, ℕ, ◌++◌, ◌∙◌,
  ◌∷◌, ◌≡◌, ◌≢◌,
}
use phonepad.Keyboard.Typing.{TextOp, KeyChord, chords, flush, pastes, plan_from, plan_text}

-- The text that some operations enter; `typed` says what a chord types on the layout.
abbrev pub entered : (KeyChord → ℕ) → List TextOp → List ℕ
entered typed [] = []
entered typed (pastes s ∷ ops) = s ++ entered typed ops
entered typed (chords k ∷ ops) = typed k ∷ entered typed ops

-- No paste is empty, and none follows another.
abbrev pub IsSparse : List TextOp → Type 0
IsSparse [] = Unit
IsSparse (chords k ∷ ops) = IsSparse ops
IsSparse (pastes s ∷ []) = s ≢ []
IsSparse (pastes s ∷ chords k ∷ ops) = (s ≢ []) × IsSparse ops
IsSparse (pastes s ∷ pastes t ∷ ops) = ⊥

-- The runes that the layout has no chord for.
abbrev pub Untyped : (ℕ → Option KeyChord) → List ℕ → Type 0
Untyped keys [] = Unit
Untyped keys (r ∷ rs) = (keys r ≡ none) × Untyped keys rs

abbrev pub PastesUntyped : (ℕ → Option KeyChord) → List TextOp → Type 0
PastesUntyped keys [] = Unit
PastesUntyped keys (chords k ∷ ops) = PastesUntyped keys ops
PastesUntyped keys (pastes s ∷ ops) = Untyped keys s × PastesUntyped keys ops

module _ (keys : ℕ → Option KeyChord) where
  -- The plan without its accumulators: a paste grows at its end.
  plan_rest : List ℕ → List ℕ → List TextOp
  plan_rest buf [] = flush [] buf
  plan_rest buf (r ∷ rs) = elim (keys r) [
    | some chord ↦ flush [] buf ++ (chords chord ∷ plan_rest [] rs)
    | none ↦ plan_rest (buf ++ r ∷ []) rs
  ]

  flush-append : (ops : List TextOp) (buf : List ℕ) → flush ops buf ≡ ops ++ flush [] buf
  flush-append ops [] = sym (append-nil ops)
  flush-append ops (r ∷ buf) = refl

  plan_from-rest :
      (rs : List ℕ) (ops : List TextOp) (buf : List ℕ)
      → plan_from keys ops buf rs ≡ ops ++ plan_rest buf rs
  unfolding plan_from plan_rest
  plan_from-rest [] ops buf = flush-append ops buf
  plan_from-rest (r ∷ rs) ops buf = elim (Option-cases (keys r)) [
    | inl e ↦ rw (e, plan_from, plan_rest) (plan_from-rest rs ops (buf ++ r ∷ []))
    | inr (k, e) ↦
        rw (e, plan_from, plan_rest)
          (plan_from-rest rs (flush ops buf ++ chords k ∷ []) []
            ∙ append_assoc (flush ops buf) (chords k ∷ []) (plan_rest [] rs)
            ∙ ap (λ t. t ++ chords k ∷ plan_rest [] rs) (flush-append ops buf)
            ∙ append_assoc ops (flush [] buf) (chords k ∷ plan_rest [] rs))
  ]

  module _ (typed : KeyChord → ℕ)
      (types : (r : ℕ) (k : KeyChord) → keys r ≡ some k → typed k ≡ r) where
    entered-flush :
        (buf : List ℕ) (ops : List TextOp)
        → entered typed (flush [] buf ++ ops) ≡ buf ++ entered typed ops
    entered-flush [] ops = refl
    entered-flush (r ∷ buf) ops = refl

    entered-plan_rest : (rs buf : List ℕ) → entered typed (plan_rest buf rs) ≡ buf ++ rs
    unfolding plan_rest
    entered-plan_rest [] [] = refl
    entered-plan_rest [] (r ∷ buf) = refl
    entered-plan_rest (r ∷ rs) buf = elim (Option-cases (keys r)) [
      | inl e ↦
          rw (e, plan_rest) (entered-plan_rest rs (buf ++ r ∷ []) ∙ append_assoc buf (r ∷ []) rs)
      | inr (k, e) ↦
          rw (e, plan_rest)
            (entered-flush buf (chords k ∷ plan_rest [] rs)
              ∙ ap (λ t. buf ++ t)
                  (ap (λ t. t ∷ entered typed (plan_rest [] rs)) (types r k e)
                    ∙ ap (λ t. r ∷ t) (entered-plan_rest rs [])))
    ]

  IsSparse-flush :
      (buf : List ℕ) (k : KeyChord) (ops : List TextOp)
      → IsSparse ops
      → IsSparse (flush [] buf ++ chords k ∷ ops)
  IsSparse-flush [] k ops v = v
  IsSparse-flush (r ∷ buf) k ops v = (λ e. cc, v)

  plan_rest-IsSparse : (rs buf : List ℕ) → IsSparse (plan_rest buf rs)
  unfolding plan_rest
  plan_rest-IsSparse [] [] = tt
  plan_rest-IsSparse [] (r ∷ buf) = λ e. cc
  plan_rest-IsSparse (r ∷ rs) buf = elim (Option-cases (keys r)) [
    | inl e ↦ rw (e, plan_rest) (plan_rest-IsSparse rs (buf ++ r ∷ []))
    | inr (k, e) ↦
        rw (e, plan_rest) (IsSparse-flush buf k (plan_rest [] rs) (plan_rest-IsSparse rs []))
  ]

  Untyped-append :
      (buf : List ℕ) (r : ℕ) → Untyped keys buf → keys r ≡ none → Untyped keys (buf ++ r ∷ [])
  Untyped-append [] r u e = (e, tt)
  Untyped-append (b ∷ buf) r u e = (u.0, Untyped-append buf r u.1 e)

  PastesUntyped-flush :
      (buf : List ℕ) (ops : List TextOp)
      → Untyped keys buf
      → PastesUntyped keys ops
      → PastesUntyped keys (flush [] buf ++ ops)
  PastesUntyped-flush [] ops u v = v
  PastesUntyped-flush (r ∷ buf) ops u v = (u, v)

  plan_rest-PastesUntyped :
      (rs buf : List ℕ) → Untyped keys buf → PastesUntyped keys (plan_rest buf rs)
  unfolding plan_rest
  plan_rest-PastesUntyped [] [] u = tt
  plan_rest-PastesUntyped [] (r ∷ buf) u = (u, tt)
  plan_rest-PastesUntyped (r ∷ rs) buf u = elim (Option-cases (keys r)) [
    | inl e ↦
        rw (e, plan_rest) (plan_rest-PastesUntyped rs (buf ++ r ∷ []) (Untyped-append buf r u e))
    | inr (k, e) ↦
        rw (e, plan_rest)
          (PastesUntyped-flush buf (chords k ∷ plan_rest [] rs) u
            (plan_rest-PastesUntyped rs [] tt))
  ]

  -- The plan of a text enters exactly that text, if each chord of the layout types its rune; a paste
  -- holds only runes that the layout has no chord for, it is never empty, and no two pastes stand next
  -- to each other.
  pub plan_text-entered :
      (typed : KeyChord → ℕ)
      → ((r : ℕ) (k : KeyChord) → keys r ≡ some k → typed k ≡ r)
      → (s : List ℕ)
      → (entered typed (plan_text keys s) ≡ s)
        × IsSparse (plan_text keys s)
        × PastesUntyped keys (plan_text keys s)
  unfolding plan_text
  plan_text-entered typed types s =
      rw (plan_from-rest s [] []) (
        entered-plan_rest typed types s [],
        plan_rest-IsSparse s [],
        plan_rest-PastesUntyped s [] tt,
      )
