-- ===== src/Service/Requests.antt =====
-- Sequences of calls of the service's interface, in the order in which they obtain the mutex.
use iov_vehicle_tbox_prov.Base.{◌≡◌, refl, ap, ◌∙◌, true, List, [], ◌∷◌, ℕ, Str, arith}
use iov_vehicle_tbox_prov.Errors.{ErrorCode}
use iov_vehicle_tbox_prov.Types.{ProductionInfo}
use iov_vehicle_tbox_prov.Json.{JsonLibrary}
use iov_vehicle_tbox_prov.Store.{Store}
use iov_vehicle_tbox_prov.Storage.{Storage}
use iov_vehicle_tbox_prov.Service.Actions.{Service}
use iov_vehicle_tbox_prov.Service.Frame.{
  SameFrame, SameFrame-refl, write_vin-SameFrame, authorize_rewrite-SameFrame,
  write_vehicle_config-SameFrame, write_production_info-SameFrame,
}
use iov_vehicle_tbox_prov.Service.Gates.{
  write_vin-Frozen, authorize_rewrite-Frozen, write_config-Frozen, write_production-Frozen,
  writes_after_shutdown,
}
use iov_vehicle_tbox_prov.Service.{
  Inputs, initialize, begin_shutdown, write_vin, authorize_rewrite, write_vehicle_config,
  write_production_info, read_binding,
}

-- A call; those that only read and log nothing are left out, since they change no state.
pub data Request : Type 0 where
  initialize_request begin_shutdown_request : Request
  write_vin_request authorize_rewrite_request : Inputs → Str → Request
  write_vehicle_config_request : Inputs → List ℕ → Request
  write_production_info_request : Inputs → ProductionInfo → Request
  read_binding_request : Inputs → Request

abbrev pub no_info : ProductionInfo
no_info = record { production_date = []; batch_num = []; station_id = []; written_at = 0 }

module _ (J : JsonLibrary) (st : Store) where
  unfoldable pub serve : Request → Service → Service
  serve initialize_request s = (initialize J st s).1
  serve begin_shutdown_request s = begin_shutdown s
  serve (write_vin_request i vin) s = (write_vin J st i vin s).1
  serve (authorize_rewrite_request i vin) s = (authorize_rewrite J st i vin s).1
  serve (write_vehicle_config_request i config_data) s =
      (write_vehicle_config J st i config_data s).1
  serve (write_production_info_request i info) s = (write_production_info J st i info s).1
  serve (read_binding_request i) s = (read_binding J st i s).1

  unfoldable pub serve_all : List Request → Service → Service
  serve_all [] s = s
  serve_all (r ∷ rest) s = serve_all rest (serve r s)

  -- Calls that keep a predicate keep it in any sequence.
  serve_all_induction :
      (P : Service → Type 0)
      → ((r : Request) (s : Service) → P s → P (serve r s))
      → (rs : List Request) (s : Service) → P s
      → P (serve_all rs s)
  unfolding serve_all
  serve_all_induction P step [] s h = h
  serve_all_induction P step (r ∷ rs) s h = serve_all_induction P step rs (serve r s) (step r s h)

  pub initialize_again : (s : Service) → s.initialized ≡ true → (initialize J st s).1 ≡ s
  unfolding initialize
  initialize_again s h = rw h refl

  pub storage-read_binding :
      (i : Inputs) (s : Service) → (read_binding J st i s).1.storage ≡ s.storage
  unfolding read_binding
  storage-read_binding i s = ground arith

  pub frame-read_binding : (i : Inputs) (s : Service) → SameFrame s (read_binding J st i s).1
  unfolding read_binding
  frame-read_binding i s = record {
    config = ground arith;
    initialized = ground arith;
    shutting_down = ground arith;
  }

  -- No call ends the initialized state, or the shutdown.
  pub serve-frame :
      (r : Request) (s : Service)
      → s.initialized ≡ true
      → ((serve r s).initialized ≡ true)
        × (s.shutting_down ≡ true → (serve r s).shutting_down ≡ true)
  unfolding serve
  serve-frame initialize_request s h = rw (initialize_again s h) (h, λ d. d)
  serve-frame begin_shutdown_request s h = (unfold begin_shutdown in (h, λ d. refl))
  serve-frame (write_vin_request i vin) s h =
      let f = (write_vin-SameFrame J st s i vin).at s (SameFrame-refl s) in
      (f.initialized ∙ h, λ d. f.shutting_down ∙ d)
  serve-frame (authorize_rewrite_request i vin) s h =
      let f = (authorize_rewrite-SameFrame J st s i vin).at s (SameFrame-refl s) in
      (f.initialized ∙ h, λ d. f.shutting_down ∙ d)
  serve-frame (write_vehicle_config_request i c) s h =
      let f = (write_vehicle_config-SameFrame J st s i c).at s (SameFrame-refl s) in
      (f.initialized ∙ h, λ d. f.shutting_down ∙ d)
  serve-frame (write_production_info_request i c) s h =
      let f = (write_production_info-SameFrame J st s i c).at s (SameFrame-refl s) in
      (f.initialized ∙ h, λ d. f.shutting_down ∙ d)
  serve-frame (read_binding_request i) s h =
      let f = frame-read_binding i s in (f.initialized ∙ h, λ d. f.shutting_down ∙ d)

  pub serve_protected :
      (t₀ : Storage)
      → t₀.write_protected ≡ true
      → (r : Request) (s : Service) → (s.initialized ≡ true) × (s.storage ≡ t₀)
      → ((serve r s).initialized ≡ true) × ((serve r s).storage ≡ t₀)
  unfolding serve
  serve_protected t₀ locked initialize_request s (h, e) = rw (initialize_again s h) (h, e)
  serve_protected t₀ locked begin_shutdown_request s (h, e) = (unfold begin_shutdown in (h, e))
  serve_protected t₀ locked (write_vin_request i vin) s (h, e) = (
    (serve-frame (write_vin_request i vin) s h).0,
    (write_vin-Frozen J st t₀ locked i vin).at s e,
  )
  serve_protected t₀ locked (authorize_rewrite_request i vin) s (h, e) = (
    (serve-frame (authorize_rewrite_request i vin) s h).0,
    (authorize_rewrite-Frozen J st t₀ locked i vin).at s e,
  )
  serve_protected t₀ locked (write_vehicle_config_request i c) s (h, e) = (
    (serve-frame (write_vehicle_config_request i c) s h).0,
    (write_config-Frozen J st t₀ locked i c).at s e,
  )
  serve_protected t₀ locked (write_production_info_request i c) s (h, e) = (
    (serve-frame (write_production_info_request i c) s h).0,
    (write_production-Frozen J st t₀ locked i c).at s e,
  )
  serve_protected t₀ locked (read_binding_request i) s (h, e) =
      ((serve-frame (read_binding_request i) s h).0, storage-read_binding i s ∙ e)

  -- Once the storage of an initialized service is protected, no sequence of calls of the service's
  -- interface changes the protection, any file, or anything else of the storage.
  pub protected_forever :
      (rs : List Request) (s : Service)
      → s.initialized ≡ true
      → s.storage.write_protected ≡ true
      → (serve_all rs s).storage ≡ s.storage
  protected_forever rs s ready locked =
      (serve_all_induction _ (serve_protected s.storage locked) rs s (ready, refl)).1

  storage-serve :
      (r : Request) (s : Service)
      → s.initialized ≡ true
      → s.shutting_down ≡ true
      → (serve r s).storage ≡ s.storage
  unfolding serve
  storage-serve initialize_request s h d = ap (λ (t : Service). t.storage) (initialize_again s h)
  storage-serve begin_shutdown_request s h d = (unfold begin_shutdown in refl)
  storage-serve (write_vin_request i vin) s h d =
      ap (λ (r : ErrorCode × Service). r.1.storage)
        (writes_after_shutdown J st i vin [] no_info s d).0
  storage-serve (authorize_rewrite_request i vin) s h d =
      ap (λ (r : ErrorCode × Service). r.1.storage)
        (writes_after_shutdown J st i vin [] no_info s d).1
  storage-serve (write_vehicle_config_request i c) s h d =
      ap (λ (r : ErrorCode × Service). r.1.storage)
        (writes_after_shutdown J st i [] c no_info s d).2
  storage-serve (write_production_info_request i info) s h d =
      ap (λ (r : ErrorCode × Service). r.1.storage) (writes_after_shutdown J st i [] [] info s d).3
  storage-serve (read_binding_request i) s h d = storage-read_binding i s

  pub serve_shutdown :
      (t₀ : Storage) (r : Request) (s : Service)
      → (s.initialized ≡ true) × (s.shutting_down ≡ true) × (s.storage ≡ t₀)
      → ((serve r s).initialized ≡ true)
        × ((serve r s).shutting_down ≡ true)
        × ((serve r s).storage ≡ t₀)
  serve_shutdown t₀ r s (h, d, e) =
      let (h', d') = serve-frame r s h in (h', d' d, storage-serve r s h d ∙ e)

  -- From the start of a shutdown of an initialized service no sequence of calls of the service's
  -- interface changes the storage or ends the shutdown.
  pub shutdown_forever :
      (rs : List Request) (s : Service)
      → s.initialized ≡ true
      → ((serve_all rs (begin_shutdown s)).storage ≡ s.storage)
        × ((serve_all rs (begin_shutdown s)).shutting_down ≡ true)
  unfolding begin_shutdown
  shutdown_forever rs s ready =
      let (_, down, same) =
        serve_all_induction
          (λ t. (t.initialized ≡ true) × (t.shutting_down ≡ true) × (t.storage ≡ s.storage))
          (serve_shutdown s.storage) rs (begin_shutdown s) (ready, refl, refl) in
      (same, down)
