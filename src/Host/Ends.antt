-- ===== src/Host/Ends.antt =====
-- Actions that never run out of fuel: what they stand for in the source comes to an end.
use vfio.Prelude.{◌≢◌, arith, Bool, true, false, if◌then◌else◌}
use vfio.Error.{VfioError, Outcome, ok, err, fault, out_of_fuel}
use vfio.Host.Action.{Action, State, pure, gets, ◌>>=◌, on_err}

pub record Ends {A : Type 0} (m : Action A) : Type 0 where
  pub apply : (s : State) → (m s).0 ≢ fault out_of_fuel

module _ {A : Type 0} where
  pub pure-Ends : (a : A) → Ends (pure a)
  pure-Ends a = record { apply = λ s same. cc }

  pub gets-Ends : (f : State → A) → Ends (gets f)
  gets-Ends f = record { apply = λ s same. cc }

  pub if-Ends : {m n : Action A} (b : Bool) → Ends m → Ends n → Ends (if b then m else n)
  if-Ends true p q = p
  if-Ends false p q = q

  on_err-from :
      (h : VfioError → Action A) (x : Outcome A × State)
      → ((e : VfioError) → Ends (h e))
      → x.0 ≢ fault out_of_fuel
      → (s : State) → (on_err (λ _. x) h s).0 ≢ fault out_of_fuel
  on_err-from h (ok a, s') q ends s = ends
  on_err-from h (err e, s') q ends s = (q e).apply s'
  on_err-from h (fault y, s') q ends s = ends

  pub on_err-Ends :
      {m : Action A} {h : VfioError → Action A}
      → Ends m
      → ((e : VfioError) → Ends (h e))
      → Ends (on_err m h)
  on_err-Ends {m} {h} p q = record { apply = λ s. on_err-from h (m s) q (p.apply s) s }

module _ {A B : Type 0} where
  >>=-from :
      (f : A → Action B) (x : Outcome A × State)
      → ((a : A) → Ends (f a))
      → x.0 ≢ fault out_of_fuel
      → (s : State) → (((λ _. x) >>= f) s).0 ≢ fault out_of_fuel
  >>=-from f (ok a, s') q ends s = (q a).apply s'
  >>=-from f (err e, s') q ends s = λ same. cc
  >>=-from f (fault y, s') q ends s = λ same. ends (ground arith)

  pub >>=-Ends :
      {m : Action A} {f : A → Action B} → Ends m → ((a : A) → Ends (f a)) → Ends (m >>= f)
  >>=-Ends {m} {f} p q = record { apply = λ s. >>=-from f (m s) q (p.apply s) s }
