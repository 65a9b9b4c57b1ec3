-- ===== src/Pointer/Motion.antt =====
-- The motion that a linearTouch sends, described without its buttons and its clock.
use phonepad.Base.{
  Bool, List, Option, [], arith, eq_ℤ, false, if◌then◌else◌, none, refl, some, subst, true, ℕ, ◌&&◌,
  ◌++◌, ◌||◌, ◌∷◌, ◌≡◌,
}
use phonepad.Pointer.Geometry.{PointerMath, Contact}
use phonepad.Pointer.LinearTouch.{
  LinearTouch, Input, Effect, cancel, cancels, click, contacts_frame, frames, lets_go, lift_frame,
  lifts_all, moves, multi_frame, one_or_none, presses, release, single_frame, span, touch_down,
  touch_move, touches, step, frame, new_linear_touch, run, call,
}

module _ (pm : PointerMath) where
  open pm use {Float}

  abbrev pub motions : List (Effect pm) → List (Float × Float)
  motions [] = []
  motions (presses ∷ es) = motions es
  motions (lets_go ∷ es) = motions es
  motions (lifts_all ∷ es) = motions es
  motions (moves dx dy ∷ es) = (dx, dy) ∷ motions es
  motions (touches cs ∷ es) = motions es

  -- A desktop whose calls never fail.
  abbrev pub never : List (Effect pm) → Bool
  never es = false

  -- The finger that is followed, and whether several fingers are on.
  pub record Track : Type 0 where
    pub last : Option (Contact pm)
    pub many : Bool

  abbrev pub lost : Track
  lost = record { last = none; many = false }

  -- Twenty pixels for each millimetre between two places of one finger.
  pub between : Contact pm → Contact pm → Float × Float → List (Float × Float)
  between q c (w, h) =
      let dx = pm.times (pm.minus c.x q.x) w in
      let dy = pm.times (pm.minus c.y q.y) h in
      if pm.is_zero dx && pm.is_zero dy
      then []
      else (pm.times dx (pm.hundredths 2000), pm.times dy (pm.hundredths 2000)) ∷ []

  abbrev pub follow :
      Option (Contact pm) → Contact pm → Float × Float → Track × List (Float × Float)
  follow none c size = (record { last = some c; many = false }, [])
  follow (some q) c size =
      if eq_ℤ c.id q.id
      then (record { last = some c; many = false }, between q c size)
      else (lost, [])

  abbrev pub see : Track → List (Contact pm) → Float × Float → Track × List (Float × Float)
  see t [] size = (lost, [])
  see t (c ∷ []) size =
      if t.many then (record { last = none; many = true }, []) else follow t.last c size
  see t (c ∷ d ∷ rest) size = (record { last = none; many = true }, [])

  abbrev pub track : Track → Input pm → Track × List (Float × Float)
  track t cancels = (lost, [])
  track t (frames cs g now) =
      if pm.at_most (span pm g).0 (pm.hundredths 0) || pm.at_most (span pm g).1 (pm.hundredths 0)
      then (lost, [])
      else see t cs (span pm g)

  -- The motion of a list of inputs, the newest first.
  pub motion_of : Track → List (Input pm) → List (Float × Float) → List (Float × Float)
  motion_of t [] sent = sent
  motion_of t (i ∷ is) sent = motion_of (track t i).0 is ((track t i).1 ++ sent)

  record Follows (t : Track) (new old : List (Float × Float)) (p : LinearTouch pm) : Type 0 where
    works : p.blocked ≡ false
    last : p.previous ≡ t.last
    many : p.multi ≡ t.many
    none_of_many : p.multi ≡ true → p.previous ≡ none
    sent : motions p.effects ≡ new ++ old

  cancel-Follows :
      (p : LinearTouch pm)
      → p.blocked ≡ false
      → Follows lost [] (motions p.effects) (cancel pm never p)
  unfolding cancel release
  cancel-Follows p b = ground arith

  frame-Follows :
      (p : LinearTouch pm) (cs : List (Contact pm)) (size : Float × Float) (now : ℕ)
      → p.blocked ≡ false
      → (p.multi ≡ true → p.previous ≡ none)
      → let t : Track = record { last = p.previous; many = p.multi } in
        Follows
          (see t cs size).0
          (see t cs size).1
          (motions p.effects)
          (contacts_frame pm never p cs size now)
  unfolding contacts_frame one_or_none single_frame lift_frame touch_down touch_move multi_frame
      click cancel release between
  frame-Follows p [] size now b n = ground arith
  frame-Follows p (c ∷ d ∷ rest) size now b n = ground arith
  frame-Follows p (c ∷ []) size now b n = ground arith

  abbrev seen : LinearTouch pm → Track
  seen p = record { last = p.previous; many = p.multi }

  if-Follows :
      (b : Bool) (t u : Track × List (Float × Float)) (old : List (Float × Float))
      (x y : LinearTouch pm)
      → Follows t.0 t.1 old x
      → Follows u.0 u.1 old y
      → Follows (if b then t else u).0 (if b then t else u).1 old (if b then x else y)
  if-Follows true t u old x y f g = f
  if-Follows false t u old x y f g = g

  if_false {ℓ} : {A : Type ℓ} (b : Bool) (x y : A) → b ≡ false → y ≡ (if b then x else y)
  if_false true x y e = cc
  if_false false x y e = refl

  input-Follows :
      (i : Input pm) (p : LinearTouch pm)
      → p.blocked ≡ false
      → (p.multi ≡ true → p.previous ≡ none)
      → Follows (track (seen p) i).0 (track (seen p) i).1 (motions p.effects) (step pm never p i)
  unfolding step frame
  input-Follows cancels p b n = cancel-Follows p b
  input-Follows (frames cs g now) p b n =
      let out = track (seen p) (frames cs g now) in
      subst (Follows out.0 out.1 (motions p.effects))
        (if_false p.blocked (call pm p (touches cs)) _ b)
        (if-Follows
          (pm.at_most (span pm g).0 (pm.hundredths 0) || pm.at_most (span pm g).1 (pm.hundredths 0))
          (lost, []) (see (seen p) cs (span pm g)) (motions p.effects) (cancel pm never p)
          (contacts_frame pm never p cs (span pm g) now) (cancel-Follows p b)
          (frame-Follows p cs (span pm g) now b n))

  step-Follows :
      (i : Input pm) (t : Track) (new old : List (Float × Float)) (p : LinearTouch pm)
      → Follows t new old p
      → Follows (track t i).0 (track t i).1 (new ++ old) (step pm never p i)
  step-Follows i t new old p f =
      let same : seen p ≡ t = λ j. record { last = f.last j; many = f.many j } in
      subst (λ x. Follows (track t i).0 (track t i).1 x (step pm never p i)) f.sent
        (subst (λ x. Follows (track x i).0 (track x i).1 (motions p.effects) (step pm never p i))
          same (input-Follows i p f.works f.none_of_many))

  run-motions :
      (is : List (Input pm)) (t : Track) (new old : List (Float × Float)) (p : LinearTouch pm)
      → Follows t new old p
      → motions (run pm never p is).effects ≡ motion_of t is (new ++ old)
  unfolding run motion_of
  run-motions [] t new old p f = f.sent
  run-motions (i ∷ is) t new old p f =
      run-motions is (track t i).0 (track t i).1 (new ++ old) (step pm never p i)
        (step-Follows i t new old p f)

  new_linear_touch-Follows : (c : Contact pm) → Follows lost [] [] (new_linear_touch pm c)
  unfolding new_linear_touch
  new_linear_touch-Follows c = ground arith

  -- On a desktop whose calls do not fail, the motion that a pointer sends over its life is the one
  -- that its frames describe: twenty times the way between two consecutive places of one finger, and
  -- nothing where the finger changes, from where several fingers are on until all are off, on a surface
  -- without an extent, or across a cancellation. The description knows neither the time of a frame nor
  -- the buttons.
  pub motions-run :
      (c : Contact pm) (is : List (Input pm))
      → motions (run pm never (new_linear_touch pm c) is).effects ≡ motion_of lost is []
  motions-run c is = run-motions is lost [] [] (new_linear_touch pm c) (new_linear_touch-Follows c)
