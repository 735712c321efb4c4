-- ===== src/Host/Quiet.antt =====
-- Actions that change nothing of the state but the record of calls. `quiet` proves it of a `do`
-- block by its steps.
use vfio.Prelude.{◌≡◌, refl, ap, ◌∙◌, Bool, true, false, Option, none, some, if◌then◌else◌, ◌∷◌}
use vfio.Error.{VfioError, Fault, Outcome, ok, err, fault}
use vfio.Host.Call.{Fd, Call, Trace}
use vfio.Host.Kernel.{Kernel}
use vfio.Host.Action.{
  Action, State, pure, raise, stop, gets, or_raise, raise_if, ◌>>=◌, on_err, issue, close,
}

pub record Quiet {ℓ} {A : Type ℓ} (m : Action A) : Type ℓ where
  pub apply : (s : State) → (t : Trace) × ((m s).1 ≡ record s { trace = t })

module _ {ℓ} {A : Type ℓ} where
  still : (r : Outcome A) → Quiet (λ s. (r, s))
  still r = record { apply = λ s. (s.trace, refl) }

  pub pure-Quiet : (a : A) → Quiet (pure a)
  pure-Quiet a = still (ok a)

  pub raise-Quiet : (e : VfioError) → Quiet (raise {A = A} e)
  raise-Quiet e = still (err e)

  pub stop-Quiet : (f : Fault) → Quiet (stop {A = A} f)
  stop-Quiet f = still (fault f)

  pub lift-Quiet : (r : Outcome A) → Quiet (λ s. (r, s))
  lift-Quiet r = still r

  pub gets-Quiet : (f : State → A) → Quiet (gets f)
  gets-Quiet f = record { apply = λ s. (s.trace, refl) }

  pub or_raise-Quiet : (o : Option A) (e : VfioError) → Quiet (or_raise o e)
  or_raise-Quiet none e = raise-Quiet e
  or_raise-Quiet (some a) e = pure-Quiet a

  pub if-Quiet : (b : Bool) {m n : Action A} → Quiet m → Quiet n → Quiet (if b then m else n)
  if-Quiet true p q = p
  if-Quiet false p q = q

  pub option-Quiet {κ} :
      {B : Type κ} (o : Option B) {m : Action A} {f : B → Action A}
      → Quiet m
      → ((b : B) → Quiet (f b))
      → Quiet (elim o [ none ↦ m | some b ↦ f b ])
  option-Quiet none p q = p
  option-Quiet (some b) p q = q b

pub raise_if-Quiet : (b : Bool) (e : VfioError) → Quiet (raise_if b e)
raise_if-Quiet b e = record { apply = λ s. (s.trace, refl) }

pub issue-Quiet : (k : Kernel) (c : Call) → Quiet (issue k c)
issue-Quiet k c = record { apply = λ s. (c ∷ s.trace, refl) }

pub close-Quiet : (fd : Fd) → Quiet (close fd)
close-Quiet fd = record { apply = λ s. (Call.closed fd ∷ s.trace, refl) }

-- The state after a quiet step is the state before, with another trace.
resume :
    (s s' : State) (t : Trace) {u : State}
    → s' ≡ record s { trace = t }
    → ((t' : Trace) × (u ≡ record s' { trace = t' }))
    → (t' : Trace) × (u ≡ record s { trace = t' })
resume s s' t e (t', q) = (t', q ∙ ap {A = State} {B = State} (λ v. record v { trace = t' }) e)

module _ {ℓ κ} {A : Type ℓ} {B : Type κ} where
  >>=-from :
      (f : A → Action B)
      → ((a : A) → Quiet (f a))
      → (s : State) (x : Outcome A × State) (t : Trace) → x.1 ≡ record s { trace = t }
      → (t' : Trace) × ((((λ _. x) >>= f) s).1 ≡ record s { trace = t' })
  >>=-from f q s (ok a, s') t e = resume s s' t e ((q a).apply s')
  >>=-from f q s (err x, s') t e = (t, e)
  >>=-from f q s (fault x, s') t e = (t, e)

  pub >>=-Quiet :
      {m : Action A} {f : A → Action B} → Quiet m → ((a : A) → Quiet (f a)) → Quiet (m >>= f)
  >>=-Quiet {m} {f} p q = record { apply = λ s. >>=-from f q s (m s) (p.apply s).0 (p.apply s).1 }

module _ {ℓ} {A : Type ℓ} where
  on_err-from :
      (h : VfioError → Action A)
      → ((e : VfioError) → Quiet (h e))
      → (s : State) (x : Outcome A × State) (t : Trace) → x.1 ≡ record s { trace = t }
      → (t' : Trace) × ((on_err (λ _. x) h s).1 ≡ record s { trace = t' })
  on_err-from h q s (ok a, s') t e = (t, e)
  on_err-from h q s (err x, s') t e = resume s s' t e ((q x).apply s')
  on_err-from h q s (fault x, s') t e = (t, e)

  pub on_err-Quiet :
      {m : Action A} {h : VfioError → Action A}
      → Quiet m
      → ((e : VfioError) → Quiet (h e))
      → Quiet (on_err m h)
  on_err-Quiet {m} {h} p q = record {
    apply = λ s. on_err-from h q s (m s) (p.apply s).0 (p.apply s).1;
  }

pub ruleset quiet = (
  pure-Quiet, raise-Quiet, stop-Quiet, lift-Quiet, gets-Quiet, or_raise-Quiet, if-Quiet,
  raise_if-Quiet, issue-Quiet, close-Quiet, >>=-Quiet, on_err-Quiet,
)
