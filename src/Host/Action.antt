-- ===== src/Host/Action.antt =====
-- State passing with Rust's ways to leave a function: an action returns its outcome and the state
-- that it leaves, also where it fails.
use vfio.Prelude.{ℕ, suc, ◌+◌, ◌-◌, ℤ, Bool, Option, none, some, ◌∷◌, Dict, if◌then◌else◌, ◌==◌}
use vfio.Error.{VfioError, Fault, Outcome, ok, err, fault}
use vfio.Host.Call.{Fd, Call, closed, Trace}
use vfio.Host.Kernel.{Kernel}

-- `VfioGroup` of vfio_device.rs: the id, and the descriptor of its `File`.
pub record VfioGroup : Type 0 where
  pub id : ℕ
  pub group : Fd

-- What an `Arc<VfioGroup>` points to: the value and the strong count.
pub record ArcInner : Type 0 where
  pub value : VfioGroup
  pub strong : ℕ

-- `heap` maps an `Arc` to what it points to, while that lives; `next` is the next allocation's name.
-- `groups` is the map in the container's mutex.
pub record State : Type 0 where
  pub trace : Trace
  pub heap : ℕ → Option ArcInner
  pub next : ℕ
  pub groups : Dict ℕ

abbrev pub Action {ℓ} : Type ℓ → Type ℓ
Action A = State → Outcome A × State

module _ {ℓ} {A : Type ℓ} where
  abbrev pub pure : A → Action A
  pure a s = (ok a, s)

  abbrev pub raise : VfioError → Action A
  raise e s = (err e, s)

  abbrev pub stop : Fault → Action A
  stop f s = (fault f, s)

  abbrev pub gets : (State → A) → Action A
  gets f s = (ok (f s), s)

  abbrev pub or_raise : Option A → VfioError → Action A
  or_raise none e = raise e
  or_raise (some a) e = pure a

abbrev pub raise_if : Bool → VfioError → Action (Unit {0})
raise_if b e s = (if b then err e else ok tt, s)

abbrev pub modify : (State → State) → Action (Unit {0})
modify f s = (ok tt, f s)

infixl 5 ◌>>=◌ ◌>>◌
abbrev pub ◌>>=◌ {ℓ κ} : {A : Type ℓ} {B : Type κ} → Action A → (A → Action B) → Action B
◌>>=◌ m f s =
    let (r, s') = m s in elim r [ ok a ↦ f a s' | err e ↦ (err e, s') | fault x ↦ (fault x, s') ]

abbrev pub ◌>>◌ {ℓ κ} : {A : Type ℓ} {B : Type κ} → Action A → Action B → Action B
m >> k = m >>= λ _. k

-- `if let Err(e) = m { handler }`; what a panic unwinds is not modelled.
abbrev pub on_err {ℓ} : {A : Type ℓ} → Action A → (VfioError → Action A) → Action A
on_err m handler s =
    let (r, s') = m s in
    elim r [ ok a ↦ (ok a, s') | err e ↦ handler e s' | fault x ↦ (fault x, s') ]

-- `map_err(|_| e)`
abbrev pub map_err {ℓ} : {A : Type ℓ} → Action A → VfioError → Action A
map_err m e = on_err m (λ _. raise e)

-- `let _ = m;`
abbrev pub ignore {ℓ} : {A : Type ℓ} → Action A → Action (Unit {0})
ignore m s =
    let (r, s') = m s in
    elim r [ ok a ↦ (ok tt, s') | err e ↦ (ok tt, s') | fault x ↦ (fault x, s') ]

-- A call of the kernel: its answer, and the call on record.
abbrev pub issue : Kernel → Call → Action ℤ
issue k c s = (ok (k.ret s.trace c), record s { trace = c ∷ s.trace })

-- `File` dropped.
abbrev pub close : Fd → Action (Unit {0})
close fd s = (ok tt, record s { trace = closed fd ∷ s.trace })

abbrev pub update {ℓ} : {A : Type ℓ} → (ℕ → Option A) → ℕ → Option A → ℕ → Option A
update f p v q = if p == q then v else f q

-- `Arc::new`
abbrev pub arc_new : VfioGroup → Action ℕ
arc_new g s = (
  ok s.next,
  record s {
    heap = update s.heap s.next (some (record { value = g; strong = 1 }));
    next = suc s.next;
  },
)

-- `Arc::clone`, on an `Arc` that lives.
abbrev pub arc_clone : ℕ → Action (Unit {0})
arc_clone h s = elim (s.heap h) [
  | none ↦ (ok tt, s)
  | some a ↦
      (ok tt, record s { heap = update s.heap h (some (record a { strong = a.strong + 1 })) })
]

-- `drop` of an `Arc`: the last reference drops the group, which closes its file.
abbrev pub arc_drop : ℕ → Action (Unit {0})
arc_drop h s = elim (s.heap h) [
  | none ↦ (ok tt, s)
  | some a ↦
      if a.strong == 1
      then (ok tt, record s { heap = update s.heap h none; trace = closed a.value.group ∷ s.trace })
      else (ok tt, record s { heap = update s.heap h (some (record a { strong = a.strong - 1 })) })
]

-- `Arc::strong_count`, and the group that an `Arc` points to.
abbrev pub strong_count : State → ℕ → ℕ
strong_count s h = elim (s.heap h) [ none ↦ 0 | some a ↦ a.strong ]

abbrev pub arc_group : State → ℕ → Option VfioGroup
arc_group s h = elim (s.heap h) [ none ↦ none | some a ↦ some a.value ]
