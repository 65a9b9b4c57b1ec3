-- ===== src/Touchpad/Kernel.antt =====
-- What the kernel keeps of the events that it is sent, by the documented Type B protocol: a current
-- slot, a tracking identifier in every slot (-1 where no contact is), and the keys that are down.
pub mod Lift
pub mod Place
pub mod Release
pub mod Refines
use phonepad.Base.{
  Bool, List, [], arith, eq_ℤ, if◌then◌else◌, ltb, not, pos, pos_part, refl, set, suc, zero, ℕ, ℤ,
  ◌&&◌, ◌++◌, ◌+◌, ◌<◌, ◌==◌, ◌||◌, ◌∷◌, ◌≡◌,
}
use phonepad.Touchpad.Events.{
  Evt, MtState, evt, sync, ev_syn, ev_key, ev_abs, syn_report, abs_mt_slot, abs_mt_tracking_id,
  btn_touch, tool_bit, free, is_free, no_slots,
}

pub record Kernel : Type 0 where
  pub slot : ℕ
  pub tracking : ℕ → ℤ
  pub keys : ℕ → Bool

abbrev pub write {ℓ} : {A : Type ℓ} → (ℕ → A) → ℕ → A → ℕ → A
write f i v j = if j == i then v else f j

unfoldable pub feed : Kernel → Evt → Kernel
feed k e =
    if e.typ == ev_abs && e.code == abs_mt_slot
    then record k { slot = pos_part e.val }
    else if e.typ == ev_abs && e.code == abs_mt_tracking_id
    then record k { tracking = write k.tracking k.slot e.val }
    else if e.typ == ev_key
    then record k { keys = write k.keys e.code (not (eq_ℤ e.val (pos 0))) }
    else k

unfoldable pub feeds : Kernel → List Evt → Kernel
unfolding feed
feeds k [] = k
feeds k (e ∷ es) = feeds (feed k e) es

pub feeds-append : (es fs : List Evt) (k : Kernel) → feeds k (es ++ fs) ≡ feeds (feeds k es) fs
unfolding feeds
feeds-append [] fs k = refl
feeds-append (e ∷ es) fs k = feeds-append es fs (feed k e)

-- A slot is free in the table exactly when the kernel sees no contact there; from slot `i` on.
abbrev pub SameFrom : ℕ → List ℤ → (ℕ → ℤ) → Type 0
SameFrom i [] tracking = Unit {0}
SameFrom i (sid ∷ ss) tracking = (is_free sid ≡ is_free (tracking i)) × SameFrom (suc i) ss tracking

-- The keys that `n` contacts hold down: the tool bit for `n`, and the touch bit.
abbrev pub key_down : ℕ → ℕ → Bool
key_down n code = ltb 0 n && (code == tool_bit n || code == btn_touch)

-- The kernel sees the state that the daemon believes in.
pub record Agrees (s : MtState) (k : Kernel) : Type 0 where
  pub slots : SameFrom 0 s.slot_id k.tracking
  pub keys : (code : ℕ) → k.keys code ≡ key_down s.count code

pub SameFrom-below :
    (i j : ℕ) (ss : List ℤ) (tracking : ℕ → ℤ) (v : ℤ)
    → j < i
    → SameFrom i ss tracking
    → SameFrom i ss (write tracking j v)
SameFrom-below i j [] tracking v h s = tt
SameFrom-below i j (sid ∷ ss) tracking v h s =
    (ground arith, SameFrom-below (suc i) j ss tracking v (omega arith) s.1)

pub SameFrom-set :
    (i n m : ℕ) (ss : List ℤ) (tracking : ℕ → ℤ) (id v : ℤ)
    → m ≡ i + n
    → is_free id ≡ is_free v
    → SameFrom i ss tracking
    → SameFrom i (set ss n id) (write tracking m v)
SameFrom-set i n m [] tracking id v e f s = tt
SameFrom-set i zero m (sid ∷ ss) tracking id v e f s =
    (ground arith, SameFrom-below (suc i) m ss tracking v (omega arith) s.1)
SameFrom-set i (suc n) m (sid ∷ ss) tracking id v e f s =
    (ground arith, SameFrom-set (suc i) n m ss tracking id v (omega arith) f s.1)
