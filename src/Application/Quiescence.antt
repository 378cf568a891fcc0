-- ===== src/Application/Quiescence.antt =====
-- The first step of `cleanup` in src/prov_application.cpp: no request writes after it.
use iov_vehicle_tbox_prov.Base.{◌≡◌, refl, ap, ◌∙◌, true, some, List}
use iov_vehicle_tbox_prov.Json.{JsonLibrary}
use iov_vehicle_tbox_prov.Store.{Store}
use iov_vehicle_tbox_prov.Storage.{Storage}
use iov_vehicle_tbox_prov.Service.{begin_shutdown}
use iov_vehicle_tbox_prov.Service.Actions.{Service}
use iov_vehicle_tbox_prov.Service.Requests.{serve_shutdown, serve-frame}
use iov_vehicle_tbox_prov.Dispatcher.Effects.{IsKept, dispatch_keeps}
use iov_vehicle_tbox_prov.Dispatcher.{dispatch}
use iov_vehicle_tbox_prov.Application.{Application, Step, perform, quiesce}
use iov_vehicle_tbox_prov.Application.System.{disk_of, Quiesced, alone, overtaken, Reach}
use iov_vehicle_tbox_prov.Application.Held.{only_service, handle_request-met, Reach-disk}

module _ (J : JsonLibrary) where
  -- An initialized service that is going down, over that storage.
  abbrev IsDown : Storage → Service → Type 0
  IsDown t₀ s = (s.initialized ≡ true) × (s.shutting_down ≡ true) × (s.storage ≡ t₀)

  IsDown-IsKept : (t₀ : Storage) (st : Store) → IsKept J st (IsDown t₀)
  IsDown-IsKept t₀ st = record {
    log = λ e s down. down;
    call = λ r s _ down. serve_shutdown J st t₀ r s down;
  }

  begin_shutdown-IsDown : (t₀ : Storage) (s : Service) → IsDown t₀ s → IsDown t₀ (begin_shutdown s)
  unfolding begin_shutdown
  begin_shutdown-IsDown t₀ s (ready, down, same) = (ready, refl, same)

  quiesce_alone :
      (a b : Application) (s : Service) (steps rest : List Step)
      → a.service ≡ some s
      → s.initialized ≡ true
      → Reach J (perform quiesce a) steps b rest
      → disk_of b ≡ disk_of (perform quiesce a)
  unfolding perform begin_shutdown
  quiesce_alone a b s steps rest there ready r =
      Reach-disk J (λ st. Unit) (λ d. d ≡ s.storage.disk) (IsDown s.storage)
        (λ st _. IsDown-IsKept s.storage st) (λ t down. ap (λ (u : Storage). u.disk) down.2)
        (begin_shutdown-IsDown s.storage) (perform quiesce a) b (begin_shutdown s) steps rest
        (λ st e. tt) (rw there refl) (ready, refl, refl) r
      ∙ rw there refl

  -- Requests keep a service initialized.
  ready-IsKept : (st : Store) → IsKept J st (λ s. s.initialized ≡ true)
  ready-IsKept st = record {
    log = λ e s ready. ready;
    call = λ r s _ ready. (serve-frame J st r s ready).0;
  }

  -- Let the first step of `cleanup` be taken while the application has an initialized service, alone
  -- or while a request is past its test of the flag, and let that request end. From then on no
  -- request changes anything on the disk, whichever steps are taken and whichever requests are
  -- handled between them.
  pub quiesce_keeps_disk :
      (a d e : Application) (s : Service) (steps rest : List Step)
      → a.service ≡ some s
      → s.initialized ≡ true
      → Quiesced J a d
      → Reach J d steps e rest
      → disk_of e ≡ disk_of d
  quiesce_keeps_disk a d e s steps rest there ready alone r =
      quiesce_alone a e s steps rest there ready r
  quiesce_keeps_disk a d e s steps rest there ready
        (overtaken {b} i what params method_id answer handled) r =
      let (st, t, _, held, left) =
        handle_request-met J i what params method_id answer a b handled in
      let first = only_service (λ u. u.initialized ≡ true) a.service s t there held ready in
      quiesce_alone b e (dispatch J st i what method_id params t).1 steps rest
        (ap (λ (x : Application). x.service) left)
        (dispatch_keeps J st i (λ u. u.initialized ≡ true) (ready-IsKept st) what method_id params t
          first)
        r
