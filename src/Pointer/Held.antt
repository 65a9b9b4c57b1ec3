-- ===== src/Pointer/Held.antt =====
-- A linearTouch leaves nothing held.
use phonepad.Base.{
  Bool, Bool-cases, List, Option-cases, [], arith, false, if◌then◌else◌, inl, inr, none, not, refl,
  some, sym, true, ℕ, ◌||◌, ◌∙◌, ◌∷◌, ◌≡◌, ◌⊎◌,
}
use phonepad.Pointer.Geometry.{PointerMath, Contact, PointerGeometry}
use phonepad.Pointer.LinearTouch.{
  LinearTouch, Effect, cancel, is_some, release, Input, call, cancels, click, frames, lift_frame,
  multi_frame, step, touch_down, touch_move, touches, contacts_frame, frame, is_several,
  new_linear_touch, run, same_id, single_frame, span, one_or_none,
}
use phonepad.Pointer.Effects.{held, asked, lost_release, fingers, Alternates}

module _ (pm : PointerMath) (fails : List (Effect pm) → Bool) where
  pub record IsTouch (p : LinearTouch pm) : Type 0 where
    pub alternates : Alternates pm p.effects
    pub tracked : asked pm p.effects ≡ p.down
    pub follows : lost_release pm fails p.effects ≡ false → held pm fails p.effects ≡ p.down
    pub lost : lost_release pm fails p.effects ≡ true → p.blocked ≡ true
    pub touching : p.down ≡ true → is_some pm p.previous ≡ true
    pub unblocked : p.blocked ≡ true → p.down ≡ false
    pub single : p.multi ≡ true → p.down ≡ false
    pub settled : p.blocked ≡ false → fingers pm p.effects ≡ true → p.multi ≡ true

  release-IsTouch : (p : LinearTouch pm) → IsTouch p → IsTouch (release pm fails p)
  unfolding release
  release-IsTouch p v = ground arith

  cancel-IsTouch : (p : LinearTouch pm) → IsTouch p → IsTouch (cancel pm fails p)
  unfolding cancel release
  cancel-IsTouch p v = ground arith

  multi_frame-IsTouch :
      (p : LinearTouch pm) (cs : List (Contact pm))
      → p.blocked ≡ false
      → IsTouch p
      → IsTouch (multi_frame pm fails p cs)
  unfolding multi_frame release
  multi_frame-IsTouch p [] b v = ground arith
  multi_frame-IsTouch p (c ∷ cs) b v = ground arith

  lift_frame-IsTouch :
      (p : LinearTouch pm) (now : ℕ)
      → p.blocked ≡ false
      → p.multi ≡ false
      → IsTouch p
      → IsTouch (lift_frame pm fails p now)
  unfolding lift_frame click release
  lift_frame-IsTouch p now b m v = ground arith

  touch_down-IsTouch :
      (p : LinearTouch pm) (c : Contact pm) (size : pm.Float × pm.Float) (now : ℕ)
      → p.blocked ≡ false
      → p.multi ≡ false
      → p.previous ≡ none
      → IsTouch p
      → IsTouch (touch_down pm fails p c size now)
  unfolding touch_down release
  touch_down-IsTouch p c size now b m n v = ground arith

  touch_move-IsTouch :
      (p : LinearTouch pm) (q c : Contact pm) (size : pm.Float × pm.Float)
      → p.blocked ≡ false
      → p.multi ≡ false
      → p.previous ≡ some q
      → IsTouch p
      → IsTouch (touch_move pm fails p q c size)
  unfolding touch_move release
  touch_move-IsTouch p q c size b m n v = ground arith

  blocked_frame-IsTouch :
      (p : LinearTouch pm) (cs : List (Contact pm))
      → p.blocked ≡ true
      → IsTouch p
      → IsTouch (call pm p (touches cs))
  blocked_frame-IsTouch p cs b v = ground arith

  if-IsTouch :
      (b : Bool) (x y : LinearTouch pm)
      → (b ≡ true → IsTouch x)
      → (b ≡ false → IsTouch y)
      → IsTouch (if b then x else y)
  if-IsTouch true x y f g = f refl
  if-IsTouch false x y f g = g refl

  single_frame-IsTouch :
      (p : LinearTouch pm) (c : Contact pm) (size : pm.Float × pm.Float) (now : ℕ)
      → p.blocked ≡ false
      → p.multi ≡ false
      → IsTouch p
      → IsTouch (single_frame pm fails p c size now)
  unfolding single_frame
  single_frame-IsTouch p c size now b m v = elim (Option-cases p.previous) [
    | inl e ↦ rw (e, single_frame) (touch_down-IsTouch p c size now b m e v)
    | inr (q, e) ↦
        rw (e, single_frame)
          (if-IsTouch (not (same_id pm c.id q.id)) _ _ (λ _. cancel-IsTouch p v)
            (λ _. touch_move-IsTouch p q c size b m e v))
  ]

  one_or_none-IsTouch :
      (p : LinearTouch pm) (cs : List (Contact pm)) (size : pm.Float × pm.Float) (now : ℕ)
      → p.blocked ≡ false
      → p.multi ≡ false
      → IsTouch p
      → IsTouch (one_or_none pm fails p cs size now)
  unfolding one_or_none
  one_or_none-IsTouch p [] size now b m v = lift_frame-IsTouch p now b m v
  one_or_none-IsTouch p (c ∷ rest) size now b m v = single_frame-IsTouch p c size now b m v

  contacts_frame-IsTouch :
      (p : LinearTouch pm) (cs : List (Contact pm)) (size : pm.Float × pm.Float) (now : ℕ)
      → p.blocked ≡ false
      → IsTouch p
      → IsTouch (contacts_frame pm fails p cs size now)
  unfolding contacts_frame
  contacts_frame-IsTouch p cs size now b v =
      if-IsTouch (is_several pm cs || p.multi) _ _ (λ _. multi_frame-IsTouch p cs b v)
        (λ e. one_or_none-IsTouch p cs size now b (ground arith) v)

  frame-IsTouch :
      (p : LinearTouch pm) (cs : List (Contact pm)) (g : PointerGeometry pm) (now : ℕ)
      → IsTouch p
      → IsTouch (frame pm fails p cs g now)
  unfolding frame
  frame-IsTouch p cs g now v =
      if-IsTouch p.blocked _ _ (λ b. blocked_frame-IsTouch p cs b v)
        (λ b.
          if-IsTouch
            (pm.at_most (span pm g).0 (pm.hundredths 0)
              || pm.at_most (span pm g).1 (pm.hundredths 0))
            _ _ (λ _. cancel-IsTouch p v) (λ _. contacts_frame-IsTouch p cs (span pm g) now b v))

  step-IsTouch : (p : LinearTouch pm) (i : Input pm) → IsTouch p → IsTouch (step pm fails p i)
  unfolding step
  step-IsTouch p cancels v = cancel-IsTouch p v
  step-IsTouch p (frames cs g now) v = frame-IsTouch p cs g now v

  pub run-IsTouch :
      (is : List (Input pm)) (p : LinearTouch pm) → IsTouch p → IsTouch (run pm fails p is)
  unfolding run
  run-IsTouch [] p v = v
  run-IsTouch (i ∷ is) p v = run-IsTouch is (step pm fails p i) (step-IsTouch p i v)

  pub new_linear_touch-IsTouch : (c : Contact pm) → IsTouch (new_linear_touch pm c)
  unfolding new_linear_touch
  new_linear_touch-IsTouch c = ground arith

  -- Whatever a frame without a contact finds, it leaves the button up and no finger down.
  lift-none :
      (p : LinearTouch pm) (g : PointerGeometry pm) (now : ℕ)
      → IsTouch p
      → let es = (frame pm fails p [] g now).effects in
        (asked pm es ≡ false) × (fingers pm es ≡ false)
  unfolding frame contacts_frame one_or_none lift_frame multi_frame cancel click release
  lift-none p g now v = ground arith

  released_or_blocked :
      (p : LinearTouch pm)
      → IsTouch p
      → asked pm p.effects ≡ false
      → (held pm fails p.effects ≡ false)
        ⊎ ((lost_release pm fails p.effects ≡ true) × (p.blocked ≡ true))
  released_or_blocked p v up = elim (Bool-cases (lost_release pm fails p.effects)) [
    | inl e ↦ inr (e, v.lost e)
    | inr e ↦ inl (v.follows e ∙ sym v.tracked ∙ up)
  ]

  -- Over any life of a pointer, with calls of the desktop that fail in any way, calls that press the
  -- button and calls that let it go alternate, and a frame without a contact ends with the button let
  -- go and the recogniser of several fingers without a finger. The button is then up, unless a call
  -- that let it go failed, and in that case the pointer is blocked.
  pub lift_releases :
      (c : Contact pm) (is : List (Input pm)) (g : PointerGeometry pm) (now : ℕ)
      → let p = frame pm fails (run pm fails (new_linear_touch pm c) is) [] g now in
        Alternates pm p.effects
        × (asked pm p.effects ≡ false)
        × (fingers pm p.effects ≡ false)
        × ((held pm fails p.effects ≡ false)
            ⊎ ((lost_release pm fails p.effects ≡ true) × (p.blocked ≡ true)))
  lift_releases c is g now =
      let p = run pm fails (new_linear_touch pm c) is in
      let v : IsTouch p = run-IsTouch is (new_linear_touch pm c) (new_linear_touch-IsTouch c) in
      let v' = frame-IsTouch p [] g now v in
      let (up, clear) = lift-none p g now v in
      (v'.alternates, up, clear, released_or_blocked (frame pm fails p [] g now) v' up)
