-- ===== src/Host/Careful.antt =====
-- Whether the calls of a record are made on open descriptors, and calm actions that only use one
-- descriptor.
use vfio.Prelude.{
  ◌≡◌, eq_ℤ, Bool, true, false, List, [], ◌∷◌, Option, none, some, ◌&&◌, ◌||◌, if◌then◌else◌,
}
use vfio.Error.{VfioError, Outcome, ok, err, fault}
use vfio.Host.Call.{
  Fd, Call, opened, closed, dup, ioctl, set_device_attr, read_exact_at, write_all_at, Trace,
}
use vfio.Host.Kernel.{Kernel}
use vfio.Host.Action.{Action, State, ◌>>=◌, on_err, or_raise}
use vfio.Host.Calm.{Calm, SameButCalls, still-Calm, >>=-Calm, on_err-Calm}
use vfio.Host.Resources.{open_fds}

abbrev pub has_fd : Fd → List Fd → Bool
has_fd x [] = false
has_fd x (y ∷ ys) = eq_ℤ x y || has_fd x ys

module _ (k : Kernel) (own : Fd) where
  -- A descriptor for other calls than `close`.
  abbrev pub is_usable : Fd → List Fd → Bool
  is_usable fd fds = eq_ℤ own fd || has_fd fd fds

  -- What is closed is open, and so is what another call is made on, or it is `own`. A hypervisor is
  -- told of open descriptors.
  abbrev is_open_in : Call → List Fd → Bool
  is_open_in (opened p) fds = true
  is_open_in (closed fd) fds = has_fd fd fds
  is_open_in (dup fd) fds = is_usable fd fds
  is_open_in (ioctl fd request arg) fds = is_usable fd fds
  is_open_in (set_device_attr d a) fds = has_fd a.addr fds
  is_open_in (read_exact_at fd n o) fds = is_usable fd fds
  is_open_in (write_all_at fd bs o) fds = is_usable fd fds

  -- Each call of the record was made on a descriptor that was open then.
  abbrev pub all_open : Trace → Bool
  all_open [] = true
  all_open (c ∷ t) = is_open_in c (open_fds k t) && all_open t

  pub record Careful {ℓ} (fd : Fd) {A : Type ℓ} (m : Action A) : Type ℓ where
    pub calm : Calm k m
    pub sound :
        (s : State)
        → is_usable fd (open_fds k s.trace) ≡ true
        → all_open s.trace ≡ true
        → all_open (m s).1.trace ≡ true

  module _ (fd : Fd) where
    module _ {ℓ} {A : Type ℓ} where
      pub still-Careful : (r : Outcome A) → Careful fd {A = A} (λ s. (r, s))
      still-Careful r = record { calm = still-Calm k r; sound = λ s is so. so }

      pub or_raise-Careful : (o : Option A) (e : VfioError) → Careful fd (or_raise o e)
      or_raise-Careful none e = still-Careful (err e)
      or_raise-Careful (some a) e = still-Careful (ok a)

      pub if-Careful :
          (b : Bool) {m n : Action A}
          → Careful fd m
          → Careful fd n
          → Careful fd (if b then m else n)
      if-Careful true p q = p
      if-Careful false p q = q

    module _ {ℓ κ} {A : Type ℓ} {B : Type κ} where
      >>=-sound :
          (f : A → Action B)
          → ((a : A) → Careful fd (f a))
          → (s : State) (x : Outcome A × State) → is_usable fd (open_fds k s.trace) ≡ true
          → SameButCalls k s x.1
          → all_open x.1.trace ≡ true
          → all_open (((λ _. x) >>= f) s).1.trace ≡ true
      >>=-sound f q s (ok a, t) is (e, same, att) so = (q a).sound t (rw same is) so
      >>=-sound f q s (err x, t) is same so = so
      >>=-sound f q s (fault x, t) is same so = so

      pub >>=-Careful :
          {m : Action A} {f : A → Action B}
          → Careful fd m
          → ((a : A) → Careful fd (f a))
          → Careful fd (m >>= f)
      >>=-Careful {m} {f} p q = record {
        calm = >>=-Calm k p.calm (λ a. (q a).calm);
        sound = λ s is so. >>=-sound f q s (m s) is (p.calm.apply s) (p.sound s is so);
      }

    module _ {ℓ} {A : Type ℓ} where
      on_err_sound :
          (h : VfioError → Action A)
          → ((e : VfioError) → Careful fd (h e))
          → (s : State) (x : Outcome A × State) → is_usable fd (open_fds k s.trace) ≡ true
          → SameButCalls k s x.1
          → all_open x.1.trace ≡ true
          → all_open (on_err (λ _. x) h s).1.trace ≡ true
      on_err_sound h q s (ok a, t) is same so = so
      on_err_sound h q s (err x, t) is (e, same, att) so = (q x).sound t (rw same is) so
      on_err_sound h q s (fault x, t) is same so = so

      pub on_err-Careful :
          {m : Action A} {h : VfioError → Action A}
          → Careful fd m
          → ((e : VfioError) → Careful fd (h e))
          → Careful fd (on_err m h)
      on_err-Careful {m} {h} p q = record {
        calm = on_err-Calm k p.calm (λ e. (q e).calm);
        sound = λ s is so. on_err_sound h q s (m s) is (p.calm.apply s) (p.sound s is so);
      }
