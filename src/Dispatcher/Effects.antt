-- ===== src/Dispatcher/Effects.antt =====
-- What a request that src/prov_ipc_dispatcher.cpp handles does to the service.
use iov_vehicle_tbox_prov.Base.{
  ◌≡◌, refl, ℕ, if◌then◌else◌, Bool, true, false, Option, none, some, Str, codes,
}
use iov_vehicle_tbox_prov.Json.{JsonLibrary}
use iov_vehicle_tbox_prov.Store.{Store}
use iov_vehicle_tbox_prov.Service.{Inputs}
use iov_vehicle_tbox_prov.Service.Actions.{Service, LogEvent, logged}
use iov_vehicle_tbox_prov.Service.Requests.{
  Request, begin_shutdown_request, write_vehicle_config_request, write_production_info_request,
  initialize_request, write_vin_request, authorize_rewrite_request, read_binding_request, serve,
}
use iov_vehicle_tbox_prov.Dispatcher.{
  MethodId, initialize, read_vin, read_binding, get_provision_state, write_vin,
  write_vehicle_config, write_production_info, authorize_rewrite, method_of, Handled, caught, coded,
  refused, extract_string_field, handle_initialize, handle_read_vin, handle_read_binding,
  handle_get_provision_state, handle_write_vin, handle_write_vehicle_config,
  handle_write_production_info, handle_authorize_rewrite, handle, dispatch,
}

-- The calls of the service's interface that requests lead to.
abbrev pub is_sent : Request → Bool
is_sent begin_shutdown_request = false
is_sent (write_vehicle_config_request i config_data) = false
is_sent (write_production_info_request i info) = false
is_sent _ = true

-- A predicate that logging and these calls keep.
pub record IsKept (J : JsonLibrary) (st : Store) (P : Service → Type 0) : Type 0 where
  pub log : (e : LogEvent) (s : Service) → P s → P (logged e s)
  pub call : (r : Request) (s : Service) → is_sent r ≡ true → P s → P (serve J st r s)

module _ (J : JsonLibrary) (st : Store) (i : Inputs) (P : Service → Type 0)
    (kept : IsKept J st P) where
  caught_keeps : (h : Handled) (s : Service) → P s → P (caught J h s)
  caught_keeps none s p = kept.log _ s p
  caught_keeps (some r) s p = p

  either_keeps : (b : Bool) (x y : Handled × Service) → P x.1 → P y.1 → P (if b then x else y).1
  either_keeps true x y p q = p
  either_keeps false x y p q = q

  handle_keeps :
      (m : Option MethodId) (params : Str) (s : Service) → P s → P (handle J st i m params s).1
  unfolding handle handle_initialize handle_read_vin handle_read_binding handle_get_provision_state
      handle_write_vehicle_config handle_write_production_info handle_write_vin
      handle_authorize_rewrite coded refused serve
  handle_keeps (some initialize) params s p = kept.call initialize_request s refl p
  handle_keeps (some read_vin) params s p = p
  handle_keeps (some read_binding) params s p = kept.call (read_binding_request i) s refl p
  handle_keeps (some get_provision_state) params s p = p
  handle_keeps (some write_vin) params s p =
      either_keeps _ _ _ p
        (kept.call (write_vin_request i (extract_string_field J params (codes "vin"))) s refl p)
  handle_keeps (some write_vehicle_config) params s p = p
  handle_keeps (some write_production_info) params s p = p
  handle_keeps (some authorize_rewrite) params s p = either_keeps _ _ _ p (
      kept.call (authorize_rewrite_request i (extract_string_field J params (codes "vin"))) s refl
        p)
  handle_keeps none params s p = kept.log _ s p

  -- Such a predicate is kept by every request.
  pub dispatch_keeps :
      (what : Str) (method_id : ℕ) (params : Str) (s : Service)
      → P s
      → P (dispatch J st i what method_id params s).1
  unfolding dispatch
  dispatch_keeps what method_id params s p =
      caught_keeps _ _ (handle_keeps (method_of method_id) params _ (kept.log _ s p))
