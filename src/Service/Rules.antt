-- ===== src/Service/Rules.antt =====
-- Rules for actions: invariants, and what a successful chain says of its parts.
use iov_vehicle_tbox_prov.Base.{◌≡◌, ◌≢◌, refl, Bool, true, false, Bool-cases, inl, inr, arith}
use iov_vehicle_tbox_prov.Errors.{ErrorCode, success, is_success}
use iov_vehicle_tbox_prov.Service.Actions.{
  Service, LogEvent, Action, logged, returns, on_failure, guard, when, ◌▸◌,
}

-- `m` keeps `P`, whatever it returns.
pub record Keeps (P : Service → Type 0) (m : Action) : Type 0 where
  pub at : (s : Service) → P s → P (m s).1

module _ {P : Service → Type 0} where
  pub Keeps-returns : (c : ErrorCode) → Keeps P (returns c)
  Keeps-returns c = record { at = λ s h. h }

  pub Keeps-guard : (test : Service → Bool) (c : ErrorCode) → Keeps P (guard test c)
  unfolding guard
  Keeps-guard test c = record {
    at = λ s h. elim (Bool-cases (test s)) [ inl e ↦ rw e h | inr e ↦ rw e h ];
  }

  pub Keeps-when : (b : Bool) (m : Action) → Keeps P m → Keeps P (when b m)
  unfolding when
  Keeps-when true m k = record { at = λ s h. k.at s h }
  Keeps-when false m k = record { at = λ s h. h }

  pub Keeps-▸ : (m n : Action) → Keeps P m → Keeps P n → Keeps P (m ▸ n)
  unfolding ◌▸◌
  Keeps-▸ m n km kn = record {
    at = λ s h. elim (Bool-cases (is_success (m s).0)) [
      | inl e ↦ rw e (kn.at (m s).1 (km.at s h))
      | inr e ↦ rw e (km.at s h)
    ];
  }

  pub Keeps-on_failure :
      ((e : LogEvent) (s : Service) → P s → P (logged e s))
      → (e : LogEvent) (m : Action) → Keeps P m
      → Keeps P (on_failure e m)
  unfolding on_failure
  Keeps-on_failure log e m k = record {
    at = λ s h. elim (Bool-cases (is_success (m s).0)) [
      | inl t ↦ rw t (k.at s h)
      | inr t ↦ rw t (log e (m s).1 (k.at s h))
    ];
  }

pub ruleset keeps_rules = (Keeps-returns, Keeps-guard, Keeps-when, Keeps-▸, Keeps-on_failure)

is_success-eq : (c : ErrorCode) → is_success c ≡ true → c ≡ success
is_success-eq c h = ground arith

-- A chain that succeeds ran both parts.
pub ▸-success :
    (m n : Action) (s : Service)
    → ((m ▸ n) s).0 ≡ success
    → ((m s).0 ≡ success) × ((m ▸ n) s ≡ n (m s).1)
unfolding ◌▸◌
▸-success m n s h = elim (Bool-cases (is_success (m s).0)) [
  | inl e ↦ (is_success-eq _ e, rw e refl)
  | inr e ↦ absurd (ground (arith, h, e))
]

-- A chain whose first part succeeds goes on with the second.
pub ▸-continue : (m n : Action) (s : Service) → (m s).0 ≡ success → (m ▸ n) s ≡ n (m s).1
unfolding ◌▸◌
▸-continue m n s h = ground (arith, h)

-- A chain whose first part fails ends there.
pub ▸-stop : (m n : Action) (s : Service) → (m s).0 ≢ success → (m ▸ n) s ≡ m s
unfolding ◌▸◌
▸-stop m n s h = ground (arith, h)

pub on_failure-success :
    (e : LogEvent) (m : Action) (s : Service)
    → (on_failure e m s).0 ≡ success
    → ((m s).0 ≡ success) × (on_failure e m s ≡ m s)
unfolding on_failure
on_failure-success e m s h = ground (arith, h)

pub on_failure-continue :
    (e : LogEvent) (m : Action) (s : Service) → (m s).0 ≡ success → on_failure e m s ≡ m s
unfolding on_failure
on_failure-continue e m s h = ground (arith, h)

-- The code of an action is that of what it reports on.
pub on_failure-code : (e : LogEvent) (m : Action) (s : Service) → (on_failure e m s).0 ≡ (m s).0
unfolding on_failure
on_failure-code e m s = ground arith

pub guard-success :
    (test : Service → Bool) (c : ErrorCode) (s : Service)
    → c ≢ success
    → (guard test c s).0 ≡ success
    → (test s ≡ true) × (guard test c s ≡ (success, s))
unfolding guard
guard-success test c s ne h = ground (arith, h)

pub guard-pass :
    (test : Service → Bool) (c : ErrorCode) (s : Service)
    → test s ≡ true
    → guard test c s ≡ (success, s)
unfolding guard
guard-pass test c s h = ground arith

pub guard-fail :
    (test : Service → Bool) (c : ErrorCode) (s : Service) → test s ≡ false → guard test c s ≡ (c, s)
unfolding guard
guard-fail test c s h = ground arith

-- If `m` succeeds from a state in `P`, it ends in `Q`.
pub record Triple (P : Service → Type 0) (m : Action) (Q : Service → Type 0) : Type 0 where
  pub holds : (s : Service) → P s → (m s).0 ≡ success → Q (m s).1

module _ {P Q R : Service → Type 0} where
  pub Triple-▸ : (m n : Action) → Triple P m R → Triple R n Q → Triple P (m ▸ n) Q
  Triple-▸ m n tm tn = record {
    holds = λ s p h.
        let (first, rest) = ▸-success m n s h in
        rw rest (tn.holds (m s).1 (tm.holds s p first) (rw rest at h));
  }

module _ {P Q : Service → Type 0} where
  pub Triple-on_failure : (e : LogEvent) (m : Action) → Triple P m Q → Triple P (on_failure e m) Q
  Triple-on_failure e m t = record {
    holds = λ s p h. let (first, same) = on_failure-success e m s h in rw same (t.holds s p first);
  }

  pub Triple-guard :
      (test : Service → Bool) (c : ErrorCode)
      → c ≢ success
      → ((s : Service) → P s → test s ≡ true → Q s)
      → Triple P (guard test c) Q
  Triple-guard test c ne pass = record {
    holds = λ s p h. let (passed, same) = guard-success test c s ne h in rw same (pass s p passed);
  }

-- From a state in `P`, `m` succeeds and ends in `Q`.
pub record Total (P : Service → Type 0) (m : Action) (Q : Service → Type 0) : Type 0 where
  pub runs : (s : Service) → P s → ((m s).0 ≡ success) × Q (m s).1

module _ {P Q R : Service → Type 0} where
  pub Total-▸ : (m n : Action) → Total P m R → Total R n Q → Total P (m ▸ n) Q
  Total-▸ m n tm tn = record {
    runs = λ s p. let (ok, r) = tm.runs s p in rw (▸-continue m n s ok) (tn.runs (m s).1 r);
  }

module _ {P Q : Service → Type 0} where
  pub Total-on_failure : (e : LogEvent) (m : Action) → Total P m Q → Total P (on_failure e m) Q
  Total-on_failure e m t = record {
    runs = λ s p. let (ok, q) = t.runs s p in rw (on_failure-continue e m s ok) (ok, q);
  }

  pub Total-guard :
      (test : Service → Bool) (c : ErrorCode)
      → ((s : Service) → P s → (test s ≡ true) × Q s)
      → Total P (guard test c) Q
  Total-guard test c pass = record {
    runs = λ s p. let (passed, q) = pass s p in rw (guard-pass test c s passed) (refl, q);
  }
