-- ===== src/Host/Calm.antt =====
-- Actions that change nothing but the record of calls, and open, close, attach and detach nothing.
use vfio.Prelude.{◌≡◌, refl, ap, ◌∙◌, Bool, true, false, if◌then◌else◌}
use vfio.Error.{VfioError, Outcome, ok, err, fault}
use vfio.Host.Kernel.{Kernel}
use vfio.Host.Action.{Action, State, ◌>>=◌, on_err}
use vfio.Host.Resources.{open_fds, attached}

-- A state that differs from another in the record of calls alone, and not in what the process holds.
abbrev pub SameButCalls : Kernel → State → State → Type 0
SameButCalls k s s' =
    (s' ≡ record s { trace = s'.trace })
    × (open_fds k s'.trace ≡ open_fds k s.trace)
    × (attached k s'.trace ≡ attached k s.trace)

pub record Calm {ℓ} (k : Kernel) {A : Type ℓ} (m : Action A) : Type ℓ where
  pub apply : (s : State) → SameButCalls k s (m s).1

module _ (k : Kernel) where
  pub SameButCalls-trans :
      (s t u : State) → SameButCalls k s t → SameButCalls k t u → SameButCalls k s u
  SameButCalls-trans s t u (e, o, a) (e', o', a') =
      (e' ∙ ap {A = State} {B = State} (λ v. record v { trace = u.trace }) e, o' ∙ o, a' ∙ a)

  module _ {ℓ} {A : Type ℓ} where
    pub still-Calm : (r : Outcome A) → Calm k {A = A} (λ s. (r, s))
    still-Calm r = record { apply = λ s. (refl, refl, refl) }

    pub if-Calm : (b : Bool) {m n : Action A} → Calm k m → Calm k n → Calm k (if b then m else n)
    if-Calm true p q = p
    if-Calm false p q = q

  module _ {ℓ κ} {A : Type ℓ} {B : Type κ} where
    >>=-from :
        (f : A → Action B)
        → ((a : A) → Calm k (f a))
        → (s : State) (x : Outcome A × State) → SameButCalls k s x.1
        → SameButCalls k s (((λ _. x) >>= f) s).1
    >>=-from f q s (ok a, s') e = SameButCalls-trans s s' _ e ((q a).apply s')
    >>=-from f q s (err x, s') e = e
    >>=-from f q s (fault x, s') e = e

    pub >>=-Calm :
        {m : Action A} {f : A → Action B} → Calm k m → ((a : A) → Calm k (f a)) → Calm k (m >>= f)
    >>=-Calm {m} {f} p q = record { apply = λ s. >>=-from f q s (m s) (p.apply s) }

  module _ {ℓ} {A : Type ℓ} where
    on_err-from :
        (h : VfioError → Action A)
        → ((e : VfioError) → Calm k (h e))
        → (s : State) (x : Outcome A × State) → SameButCalls k s x.1
        → SameButCalls k s (on_err (λ _. x) h s).1
    on_err-from h q s (ok a, s') e = e
    on_err-from h q s (err x, s') e = SameButCalls-trans s s' _ e ((q x).apply s')
    on_err-from h q s (fault x, s') e = e

    pub on_err-Calm :
        {m : Action A} {h : VfioError → Action A}
        → Calm k m
        → ((e : VfioError) → Calm k (h e))
        → Calm k (on_err m h)
    on_err-Calm {m} {h} p q = record { apply = λ s. on_err-from h q s (m s) (p.apply s) }
