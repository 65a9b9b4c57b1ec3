-- ===== src/Touchpad/History.antt =====
-- Any history of one touchpad: frames, cancellations and resets.
use phonepad.Base.{List, [], arith, false, length, refl, ℕ, ℤ, ◌++◌, ◌+◌, ◌<◌, ◌∙◌, ◌∷◌, ◌≤◌}
use phonepad.Floats.{FloatOps}
use phonepad.Touchpad.Events.{
  Evt, MtState, Contact, free, active, new_mt_state, frame, cancel, reset, hard_reset,
}
use phonepad.Touchpad.Frame.{frame-Tracks}
use phonepad.Touchpad.Kernel.{Kernel, feeds, feeds-append, Agrees}
use phonepad.Touchpad.Kernel.Refines.{
  IsSettled, IsSnapshot, frame-Agrees, tid-frame, count-frame, declared-frame, cancel-Agrees,
  cancel-IsSettled, hard_reset-Agrees, hard_reset-IsSettled, feeds-nil, OnlyBits-agreed,
}

-- A device on which nothing has happened.
unfoldable pub blank : Kernel
blank = record { slot = 0; tracking = λ i. free; keys = λ code. false }

module _ (fl : FloatOps) where
  pub data Action : Type 0 where
    frames : List (Contact fl) → Action
    cancels resets hard_resets : Action

  unfoldable pub act : MtState → Action → List Evt × MtState
  unfolding reset
  act s (frames cs) = frame fl s cs
  act s cancels = cancel s
  act s resets = reset s
  act s hard_resets = hard_reset s

  -- All the events of a history, and the state after it.
  unfoldable pub perform : MtState → List Action → List Evt × MtState
  perform s [] = ([], s)
  perform s (a ∷ rest) =
      let (ev, s') = act s a in let (ev', s'') = perform s' rest in (ev ++ ev', s'')

  abbrev fingers : Action → ℕ
  fingers (frames cs) = length cs
  fingers _ = 0

  -- How many contacts the history reports.
  abbrev pub reported : List Action → ℕ
  reported [] = 0
  reported (a ∷ rest) = fingers a + reported rest

  abbrev IsAction : Action → Type 0
  IsAction (frames cs) = IsSnapshot fl cs
  IsAction _ = Unit {0}

  -- Every snapshot of the history is one that the protocol admits.
  abbrev pub AreActions : List Action → Type 0
  AreActions [] = Unit {0}
  AreActions (a ∷ rest) = IsAction a × AreActions rest

  pub record Synced (n : ℕ) (s : MtState) (k : Kernel) : Type 0 where
    pub settled : (m : ℕ) × (m ≤ n) × IsSettled m s
    pub agrees : Agrees s k

  Synced-le : (n m : ℕ) (s : MtState) (k : Kernel) → n ≤ m → Synced n s k → Synced m s k
  Synced-le n m s k h v = record {
    settled = (v.settled.0, omega arith, v.settled.2);
    agrees = v.agrees;
  }

  act-Synced :
      (s : MtState) (a : Action) (n : ℕ) (k : Kernel)
      → 1 ≤ n
      → n + fingers a ≤ 2147483647
      → IsAction a
      → Synced n s k
      → Synced (n + fingers a) (act s a).1 (feeds k (act s a).0)
  unfolding act
  act-Synced s (frames cs) n k p b (few, are) v =
      let (m, below, settled) = v.settled in
      let tracks = frame-Tracks fl s cs settled.table few are in
      let (m', tid, below', started) =
        tid-frame fl s cs m k settled.tid settled.started (omega arith) v.agrees.slots in
      record {
        settled = (
          m',
          omega arith,
          record {
            table = tracks.table;
            tid = tid;
            started = started;
            declared = λ z. count-frame fl s cs ∙ declared-frame fl s cs are tracks z;
          },
        );
        agrees = frame-Agrees fl s cs m k settled.tid settled.started (omega arith) v.agrees;
      }
  act-Synced s cancels n k p b i v =
      let (m, below, settled) = v.settled in
      record {
        settled = (1, omega arith, cancel-IsSettled s m settled);
        agrees = cancel-Agrees s m k settled v.agrees;
      }
  act-Synced s resets n k p b i v =
      let (m, below, settled) = v.settled in
      record {
        settled = (1, omega arith, cancel-IsSettled s m settled);
        agrees = cancel-Agrees s m k settled v.agrees;
      }
  act-Synced s hard_resets n k p b i v = record {
    settled = (1, omega arith, hard_reset-IsSettled s);
    agrees = hard_reset-Agrees s k (OnlyBits-agreed s k v.agrees);
  }

  perform-Synced :
      (todo : List Action) (s : MtState) (n : ℕ) (k : Kernel)
      → 1 ≤ n
      → n + reported todo ≤ 2147483647
      → AreActions todo
      → Synced n s k
      → Synced (n + reported todo) (perform s todo).1 (feeds k (perform s todo).0)
  unfolding perform
  perform-Synced [] s n k p b i v =
      Synced-le n (n + 0) s (feeds k []) (omega arith) (rw (feeds-nil k) v)
  perform-Synced (a ∷ rest) s n k p b i v =
      let first = act-Synced s a n k p (omega arith) i.0 v in
      let later =
        perform-Synced rest (act s a).1 (n + fingers a) (feeds k (act s a).0) (omega arith)
          (omega arith) i.1 first in
      rw (feeds-append (act s a).0 (perform (act s a).1 rest).0 k)
        (Synced-le _ _ _ _ (omega arith) later)

  blank-Synced : (max_x max_y : ℤ) → Synced 1 (new_mt_state max_x max_y) blank
  unfolding new_mt_state blank active
  blank-Synced max_x max_y = record {
    settled = (
      1,
      omega arith,
      record { table = ground arith; tid = refl; started = omega arith; declared = λ z. refl },
    );
    agrees = record { slots = ground arith; keys = λ code. ground arith };
  }

  -- After any history of frames, cancellations and resets on a new device, each frame one that the
  -- protocol admits, with fewer than 2^31 - 1 contacts reported in all, the kernel agrees with the daemon: a contact stands in a slot exactly
  -- where the daemon has one, and the keys that are down are the touch bit and the tool bit of the
  -- number of contacts last reported.
  pub perform-Agrees :
      (max_x max_y : ℤ) (todo : List Action)
      → AreActions todo
      → reported todo < 2147483647
      → let (events, s) = perform (new_mt_state max_x max_y) todo in Agrees s (feeds blank events)
  perform-Agrees max_x max_y todo i b =
      (perform-Synced todo (new_mt_state max_x max_y) 1 blank (omega arith) (omega arith) i
        (blank-Synced max_x max_y)).agrees
