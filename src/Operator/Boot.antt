-- ===== src/Operator/Boot.antt =====
-- A run that lists the calls that it makes and may end the process.
use account_operator.Base.{String, Bool, true, false, Option, none, some, List, [], ◌∷◌, ◌++◌}
use account_operator.Platform.{Result, ok, err}

-- A part of the run goes on with a value, or ends the process.
pub data Status (A : Type 0) : Type 0 where
  goes : A → Status A
  fatal : String → Status A

pub data End : Type 0 where
  returned : End
  exited : String → End
  panicked : String → End

abbrev pub Boot : Type 0 → Type 0 → Type 0
Boot Ev A = Status A × List Ev

module _ {Ev : Type 0} where
  abbrev pub pure : {A : Type 0} → A → Boot Ev A
  pure a = (goes a, [])

  abbrev pub continue : {A B : Type 0} → Status A → List Ev → (A → Boot Ev B) → Boot Ev B
  continue (goes a) es f = let (r, es') = f a in (r, es ++ es')
  continue (fatal m) es f = (fatal m, es)

  infixl 5 ◌>>=◌ ◌>>◌
  abbrev pub ◌>>=◌ : {A B : Type 0} → Boot Ev A → (A → Boot Ev B) → Boot Ev B
  ◌>>=◌ m f = let (r, es) = m in continue r es f

  abbrev pub ◌>>◌ : {A B : Type 0} → Boot Ev A → Boot Ev B → Boot Ev B
  ◌>>◌ m n = m >>= λ _. n

  abbrev pub when : Bool → Boot Ev (Unit {0}) → Boot Ev (Unit {0})
  when true m = m
  when false m = pure tt

  -- A call, and `if err != nil { log.Fatal().Err(err).Msg(text) }`.
  abbrev pub call : {E : Type 0} → Ev → Option E → String → Boot Ev (Unit {0})
  call event none text = (goes tt, event ∷ [])
  call event (some e) text = (fatal text, event ∷ [])

  -- The same for a constructor, which makes no call that is listed.
  abbrev pub made : {E A : Type 0} → Result E A → String → Boot Ev A
  made (ok a) text = pure a
  made (err e) text = (fatal text, [])
