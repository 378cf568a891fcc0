-- ===== src/Service/Writes.antt =====
-- `write_vin` and `authorize_rewrite` of src/prov_service.cpp keep what their three effects keep:
-- an event that is logged, a binding that is written, and the protection that is set. Where only the
-- bindings of the call's VIN may be written, they have a predicate.
use iov_vehicle_tbox_prov.Base.{
  Bool, Bool-cases, inl, inr, Option, none, some, Str, str_eq, not, ◌&&◌,
}
use iov_vehicle_tbox_prov.Errors.{ErrorCode}
use iov_vehicle_tbox_prov.Types.{VehicleBinding, bound}
use iov_vehicle_tbox_prov.Vin
use iov_vehicle_tbox_prov.Json.{JsonLibrary}
use iov_vehicle_tbox_prov.Store.{Store}
use iov_vehicle_tbox_prov.Storage
use iov_vehicle_tbox_prov.Service.Actions.{Service, LogEvent, logged}
use iov_vehicle_tbox_prov.Service.Rules.{Keeps, Keeps-▸, keeps_rules}
use iov_vehicle_tbox_prov.Service.{
  Inputs, validate_vin_format, verify_outcome, conflict_outcome, establish_binding, verify_write,
  set_write_protection, bind_vin, execute_vin_binding_flow, write_vin, check_conflict,
  authorize_rewrite, on_storage, new_binding, store_binding,
}

module _ (J : JsonLibrary) (st : Store) {P : Service → Type 0} {Q : VehicleBinding → Type 0}
    (vin : Str) (log : (e : LogEvent) (s : Service) → P s → P (logged e s))
    (news : (i : Inputs) (uid : Str) (o : Option VehicleBinding) → Q (new_binding i vin uid o))
    (bounds : (b : VehicleBinding) → Q b → Q (record b { state = bound }))
    (writes : (b : VehicleBinding) (c : ErrorCode)
      → Q b
      → Keeps P (on_storage J st (Storage.write_vehicle_binding J st b) c))
    (protects : (b : Bool) → Keeps P (set_write_protection J st b)) where
  succeed-Keeps : (e : LogEvent) (c : ErrorCode) → Keeps P (λ t. (c, logged e t))
  succeed-Keeps e c = record { at = log e }

  store_binding-Keeps : (b : VehicleBinding) → Q b → Keeps P (store_binding J st b)
  unfolding store_binding
  store_binding-Keeps b q =
      Keeps-▸ _ _ (writes b _ q)
        (Keeps-▸ _ _ (writes (record b { state = bound }) _ (bounds b q)) (succeed-Keeps _ _))

  pub establish-Keeps : (i : Inputs) (uid : Str) → Keeps P (establish_binding J st i vin uid)
  unfolding establish_binding
  establish-Keeps i uid = record {
    at = λ s.
        (store_binding-Keeps (new_binding i vin uid (Storage.read_vehicle_binding J st s.storage))
            (news i uid (Storage.read_vehicle_binding J st s.storage))).at
          s;
  }

  verify_outcome-Keeps : (o : Option VehicleBinding) → Keeps P (verify_outcome vin o)
  verify_outcome-Keeps none = search keeps_rules
  verify_outcome-Keeps (some b) = elim (Bool-cases (str_eq b.vin vin)) [
    | inl e ↦ rw e (search keeps_rules)
    | inr e ↦ rw e (search (keeps_rules, log))
  ]

  pub verify_write-Keeps : Keeps P (verify_write J st vin)
  unfolding verify_write
  verify_write-Keeps = record {
    at = λ s. (verify_outcome-Keeps (Storage.read_vehicle_binding J st s.storage)).at s;
  }

  bind_vin-Keeps : (p : Bool) (i : Inputs) (uid : Str) → Keeps P (bind_vin J st p i vin uid)
  unfolding bind_vin
  bind_vin-Keeps p i uid =
      search (keeps_rules, log, succeed-Keeps, establish-Keeps, verify_write-Keeps, protects) depth
        8

  flow-Keeps : (i : Inputs) → Keeps P (execute_vin_binding_flow J st i vin)
  unfolding execute_vin_binding_flow
  flow-Keeps i = record {
    at = λ s h. elim (Bool-cases i.uid.succeeded) [
      | inl e ↦ simp e ((bind_vin-Keeps s.config.enable_write_protection i i.uid.uid).at s h)
      | inr e ↦ simp e (log _ s h)
    ];
  }

  validate-Keeps : Keeps P (validate_vin_format vin)
  unfolding validate_vin_format
  validate-Keeps = elim (Bool-cases (Vin.validate vin)) [
    | inl e ↦ rw e (search keeps_rules)
    | inr e ↦ rw e (search (keeps_rules, log))
  ]

  pub write_vin-Keeps_only : (i : Inputs) → Keeps P (write_vin J st i vin)
  unfolding write_vin
  write_vin-Keeps_only i = search (keeps_rules, validate-Keeps, flow-Keeps) depth 8

  conflict_outcome-Keeps : (o : Option VehicleBinding) → Keeps P (conflict_outcome vin o)
  conflict_outcome-Keeps none = search keeps_rules
  conflict_outcome-Keeps (some b) = elim (Bool-cases (b.locked && not (str_eq vin b.vin))) [
    | inl e ↦ rw e (search (keeps_rules, log))
    | inr e ↦ rw e (search keeps_rules)
  ]

  conflict-Keeps : Keeps P (check_conflict J st vin)
  unfolding check_conflict
  conflict-Keeps = record {
    at = λ s. (conflict_outcome-Keeps (Storage.read_vehicle_binding J st s.storage)).at s;
  }

  pub authorize_rewrite-Keeps_only : (i : Inputs) → Keeps P (authorize_rewrite J st i vin)
  unfolding authorize_rewrite
  authorize_rewrite-Keeps_only i =
      search (keeps_rules, validate-Keeps, conflict-Keeps, flow-Keeps) depth 9

module _ (J : JsonLibrary) (st : Store) {P : Service → Type 0}
    (log : (e : LogEvent) (s : Service) → P s → P (logged e s))
    (writes : (b : VehicleBinding) (c : ErrorCode)
      → Keeps P (on_storage J st (Storage.write_vehicle_binding J st b) c))
    (protects : (b : Bool) → Keeps P (set_write_protection J st b)) where
  abbrev Any : VehicleBinding → Type 0
  Any b = Unit

  pub validate_vin_format-Keeps : (vin : Str) → Keeps P (validate_vin_format vin)
  validate_vin_format-Keeps vin =
      validate-Keeps J st {Q = Any} vin log (λ i uid o. tt) (λ b q. q) (λ b c q. writes b c)
        protects

  pub check_conflict-Keeps : (vin : Str) → Keeps P (check_conflict J st vin)
  check_conflict-Keeps vin =
      conflict-Keeps J st {Q = Any} vin log (λ i uid o. tt) (λ b q. q) (λ b c q. writes b c)
        protects

  pub write_vin-Keeps : (i : Inputs) (vin : Str) → Keeps P (write_vin J st i vin)
  write_vin-Keeps i vin =
      write_vin-Keeps_only J st {Q = Any} vin log (λ i uid o. tt) (λ b q. q) (λ b c q. writes b c)
        protects i

  pub authorize_rewrite-Keeps : (i : Inputs) (vin : Str) → Keeps P (authorize_rewrite J st i vin)
  authorize_rewrite-Keeps i vin =
      authorize_rewrite-Keeps_only J st {Q = Any} vin log (λ i uid o. tt) (λ b q. q)
        (λ b c q. writes b c) protects i
