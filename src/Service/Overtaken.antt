-- ===== src/Service/Overtaken.antt =====
-- The writes of src/prov_service.cpp when `beginShutdown`, which takes no mutex, sets the flag after
-- a write has tested it.
use iov_vehicle_tbox_prov.Base.{
  ◌≡◌, refl, if◌then◌else◌, Bool, true, false, Bool-cases, inl, inr, Option, none, some, Str,
}
use iov_vehicle_tbox_prov.Errors.{ErrorCode, is_success, invalid_state}
use iov_vehicle_tbox_prov.Types.{VehicleBinding}
use iov_vehicle_tbox_prov.Vin
use iov_vehicle_tbox_prov.Json.{JsonLibrary}
use iov_vehicle_tbox_prov.Store.{Store}
use iov_vehicle_tbox_prov.Storage.{Storage}
use iov_vehicle_tbox_prov.Service.Actions.{
  Service, LogEvent, Action, logged, returns, on_failure, guard, when, ◌▸◌,
}
use iov_vehicle_tbox_prov.Service.{
  Inputs, is_ready, is_running, validate_vin_format, verify_outcome, conflict_outcome, on_storage,
  store_binding, establish_binding, verify_write, set_write_protection, bind_vin,
  execute_vin_binding_flow, write_vin, check_conflict, authorize_rewrite,
}

-- The flag is set.
abbrev pub stopping : Service → Service
stopping s = record s { shutting_down = true }

-- `m` does not look at the flag.
record Ignores (m : Action) : Type 0 where
  at : (s : Service) → m (stopping s) ≡ ((m s).0, stopping (m s).1)

Ignores-returns : (c : ErrorCode) → Ignores (returns c)
Ignores-returns c = record { at = λ s. refl }

Ignores-succeed : (e : LogEvent) (c : ErrorCode) → Ignores (λ t. (c, logged e t))
Ignores-succeed e c = record { at = λ s. refl }

Ignores-when : (b : Bool) (m : Action) → Ignores m → Ignores (when b m)
unfolding when
Ignores-when true m k = record { at = λ s. k.at s }
Ignores-when false m k = record { at = λ s. refl }

Ignores-▸ : (m n : Action) → Ignores m → Ignores n → Ignores (m ▸ n)
unfolding ◌▸◌
Ignores-▸ m n km kn = record {
  at = λ s. rw (km.at s) (elim (Bool-cases (is_success (m s).0)) [
    | inl e ↦ simp e (kn.at (m s).1)
    | inr e ↦ simp e refl
  ]);
}

Ignores-on_failure : (e : LogEvent) (m : Action) → Ignores m → Ignores (on_failure e m)
unfolding on_failure
Ignores-on_failure e m k = record {
  at = λ s.
      rw (k.at s)
        (elim (Bool-cases (is_success (m s).0)) [ inl t ↦ simp t refl | inr t ↦ simp t refl ]);
}

Ignores-if : (b : Bool) (m n : Action) → Ignores m → Ignores n → Ignores (if b then m else n)
Ignores-if true m n k l = k
Ignores-if false m n k l = l

ruleset ignores_rules =
    (Ignores-returns, Ignores-succeed, Ignores-when, Ignores-▸, Ignores-on_failure)

validate_vin_format-Ignores : (vin : Str) → Ignores (validate_vin_format vin)
unfolding validate_vin_format on_failure
validate_vin_format-Ignores vin = elim (Bool-cases (Vin.validate vin)) [
  | inl valid ↦ record { at = λ s. simp valid refl }
  | inr invalid ↦ record { at = λ s. simp invalid refl }
]

verify_outcome-Ignores : (vin : Str) (o : Option VehicleBinding) → Ignores (verify_outcome vin o)
verify_outcome-Ignores vin none = record { at = λ s. refl }
verify_outcome-Ignores vin (some b) = search (ignores_rules, Ignores-if) depth 4

conflict_outcome-Ignores :
    (vin : Str) (o : Option VehicleBinding) → Ignores (conflict_outcome vin o)
conflict_outcome-Ignores vin none = record { at = λ s. refl }
conflict_outcome-Ignores vin (some b) = search (ignores_rules, Ignores-if) depth 4

module _ (J : JsonLibrary) (st : Store) where
  on_storage-Ignores :
      (call : Storage → ErrorCode × Storage) (c : ErrorCode) → Ignores (on_storage J st call c)
  unfolding on_storage
  on_storage-Ignores call c = record { at = λ s. refl }

  store_binding-Ignores : (b : VehicleBinding) → Ignores (store_binding J st b)
  unfolding store_binding
  store_binding-Ignores b = search (ignores_rules, on_storage-Ignores) depth 9

  establish_binding-Ignores :
      (i : Inputs) (vin uid : Str) → Ignores (establish_binding J st i vin uid)
  unfolding establish_binding
  establish_binding-Ignores i vin uid = record { at = λ s. (store_binding-Ignores _).at s }

  verify_write-Ignores : (vin : Str) → Ignores (verify_write J st vin)
  unfolding verify_write
  verify_write-Ignores vin = record { at = λ s. (verify_outcome-Ignores vin _).at s }

  check_conflict-Ignores : (vin : Str) → Ignores (check_conflict J st vin)
  unfolding check_conflict
  check_conflict-Ignores vin = record { at = λ s. (conflict_outcome-Ignores vin _).at s }

  set_write_protection-Ignores : (b : Bool) → Ignores (set_write_protection J st b)
  unfolding set_write_protection
  set_write_protection-Ignores b = record { at = λ s. refl }

  bind_vin-Ignores : (p : Bool) (i : Inputs) (vin uid : Str) → Ignores (bind_vin J st p i vin uid)
  unfolding bind_vin
  bind_vin-Ignores p i vin uid =
      search
        (
          ignores_rules, establish_binding-Ignores, verify_write-Ignores,
          set_write_protection-Ignores,
        )
        depth 9

  flow-Ignores : (i : Inputs) (vin : Str) → Ignores (execute_vin_binding_flow J st i vin)
  unfolding execute_vin_binding_flow
  flow-Ignores i vin = elim (Bool-cases i.uid.succeeded) [
    | inl ok ↦ record { at = λ s. simp ok ((bind_vin-Ignores _ i vin _).at s) }
    | inr bad ↦ record { at = λ s. simp bad refl }
  ]

  -- What follows the two tests of the state in a write.
  past_tests :
      (m : Action) (s : Service)
      → s.initialized ≡ true
      → s.shutting_down ≡ false
      → (guard is_ready invalid_state ▸ guard is_running invalid_state ▸ m) s ≡ m s
  unfolding guard ◌▸◌ is_ready is_running
  past_tests m s ready running = simp (ready, running) refl

  -- The parts of the two writes of a VIN that follow the test of the flag.
  abbrev pub rest_of_write_vin : Inputs → Str → Action
  rest_of_write_vin i vin = validate_vin_format vin ▸ execute_vin_binding_flow J st i vin

  abbrev pub rest_of_authorize_rewrite : Inputs → Str → Action
  rest_of_authorize_rewrite i vin =
      validate_vin_format vin ▸ check_conflict J st vin ▸ execute_vin_binding_flow J st i vin

  -- Let a write of a VIN pass the tests of the state. If the flag of the shutdown is set then, before
  -- the rest of the write runs, it returns the code that it returns without the flag, and leaves the
  -- service that it leaves without it, but for the flag: same storage, same disk, same log. So do
  -- `write_vin` and `authorize_rewrite`.
  pub overtaken_writes :
      (i : Inputs) (vin : Str) (s : Service)
      → s.initialized ≡ true
      → s.shutting_down ≡ false
      → (rest_of_write_vin i vin (stopping s)
          ≡ ((write_vin J st i vin s).0, stopping (write_vin J st i vin s).1))
        × (rest_of_authorize_rewrite i vin (stopping s)
            ≡ ((authorize_rewrite J st i vin s).0, stopping (authorize_rewrite J st i vin s).1))
  unfolding write_vin authorize_rewrite
  overtaken_writes i vin s ready running = (
    rw (past_tests (rest_of_write_vin i vin) s ready running)
        ((Ignores-▸ _ _ (validate_vin_format-Ignores vin) (flow-Ignores i vin)).at s),
    rw (past_tests (rest_of_authorize_rewrite i vin) s ready running) (
        (Ignores-▸ _ _ (validate_vin_format-Ignores vin)
            (Ignores-▸ _ _ (check_conflict-Ignores vin) (flow-Ignores i vin))).at
          s),
  )
