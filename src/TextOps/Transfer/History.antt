-- ===== src/TextOps/Transfer/History.antt =====
-- The life of one transfer as a list of method calls, whoever makes them: the mutex of a
-- TextTransfer admits one at a time.
use phonepad.Base.{Bytes, List, Option, [], none, some, ℤ, ◌∷◌}
use phonepad.TextOps.Transfer.{
  State, TextTransfer, append, commit, claim, finish, cancel, retire_transfer,
}

pub data Call : Type 0 where
  appends : ℤ → Bytes → Call
  commits claims cancels retires : Call
  finishes : State → Call

abbrev pub emit : Option Bytes → List Bytes → List Bytes
emit none rest = rest
emit (some text) rest = text ∷ rest

module _ (sum256 : Bytes → Bytes) where
  -- The transfer after a call, and the text that the call released to an adapter.
  unfoldable pub step : TextTransfer → Call → TextTransfer × Option Bytes
  step t (appends index bytes) = ((append sum256 t index bytes).0, none)
  step t commits = ((commit sum256 t).0, none)
  step t claims = claim t
  step t cancels = ((cancel t).0, none)
  step t retires = (retire_transfer t, none)
  step t (finishes state) = ((finish t state).0, none)

  unfoldable pub run : TextTransfer → List Call → TextTransfer
  run t [] = t
  run t (c ∷ cs) = run (step t c).0 cs

  -- The texts that a history hands to adapters, in order.
  unfoldable pub released : TextTransfer → List Call → List Bytes
  released t [] = []
  released t (c ∷ cs) = emit (step t c).1 (released (step t c).0 cs)
