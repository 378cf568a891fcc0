-- ===== src/Application/Restart.antt =====
-- A VIN that was written through src/prov_application.cpp, read after the program ended and began
-- again.
use iov_vehicle_tbox_prov.Base.{
  ◌≡◌, refl, sym, ap, ◌∙◌, is_empty, true, false, Option, some, ◌∷◌, [], Str, codes, arith,
}
use iov_vehicle_tbox_prov.Errors.{code_value}
use iov_vehicle_tbox_prov.Json.{JsonLibrary, IsLawful, text}
use iov_vehicle_tbox_prov.Store.{Store}
use iov_vehicle_tbox_prov.Service
use iov_vehicle_tbox_prov.Storage.{Storage}
use iov_vehicle_tbox_prov.Service.{Inputs, new_service, begin_shutdown}
use iov_vehicle_tbox_prov.Service.Requests.{serve_protected}
use iov_vehicle_tbox_prov.Dispatcher.{MethodId, method_value, extract_string_field, success_members}
use iov_vehicle_tbox_prov.Dispatcher.Exact.{asked}
use iov_vehicle_tbox_prov.Dispatcher.Effects.{IsKept}
use iov_vehicle_tbox_prov.Dispatcher.Responses.{Answers}
use iov_vehicle_tbox_prov.Service.Actions.{Service}
use iov_vehicle_tbox_prov.Application.{
  Application, Settings, store_of, config_of, new_application, initialize, cleanup_steps,
  disk_after,
}
use iov_vehicle_tbox_prov.Application.Lifecycle.{IsServing}
use iov_vehicle_tbox_prov.Application.System.{handle_request, Reach}
use iov_vehicle_tbox_prov.Application.Lifetimes.{cleanup_ends}
use iov_vehicle_tbox_prov.Application.Held.{Reach-disk}
use iov_vehicle_tbox_prov.Vin
use iov_vehicle_tbox_prov.Vin.Spec.{validate-is_ascii}
use iov_vehicle_tbox_prov.Store.Laws.{initialize_calm}
use iov_vehicle_tbox_prov.Service.Completion.{IsCalm, write_vin_completes}
use iov_vehicle_tbox_prov.Service.Restart.{restart_protected}
use iov_vehicle_tbox_prov.Application.Reopened.{initialize_opens, read_vin_request}
use iov_vehicle_tbox_prov.Application.Written.{write_vin_request}

module _ (J : JsonLibrary) (st : Store) (L : IsLawful J) where
  -- An initialized service over that storage, which is protected.
  abbrev IsOver : Storage → Service → Type 0
  IsOver t₀ s = (s.initialized ≡ true) × (s.storage ≡ t₀)

  IsOver-IsKept :
      (t₀ : Storage) → t₀.write_protected ≡ true → (st : Store) → IsKept J st (IsOver t₀)
  IsOver-IsKept t₀ locked st = record {
    log = λ e s over. over;
    call = λ r s _ over. serve_protected J st t₀ locked r s over;
  }

  begin_shutdown-IsOver : (t₀ : Storage) (s : Service) → IsOver t₀ s → IsOver t₀ (begin_shutdown s)
  unfolding begin_shutdown
  begin_shutdown-IsOver t₀ s over = over

  -- Whatever is requested, a disk with a protected storage stays until the program ends.
  protected_disk :
      (a b : Application) (s : Service)
      → IsServing a
      → a.service ≡ some s
      → s.initialized ≡ true
      → s.storage.write_protected ≡ true
      → Reach J a cleanup_steps b []
      → b.disk ≡ s.storage.disk
  protected_disk a b s serving there ready locked r =
      sym (ap (λ o. disk_after o b.disk) (cleanup_ends J a b serving r).service)
      ∙ Reach-disk J (λ u. Unit) (λ d. d ≡ s.storage.disk) (IsOver s.storage)
          (λ u _. IsOver-IsKept s.storage locked u) (λ t over. ap (λ (u : Storage). u.disk) over.1)
          (begin_shutdown-IsOver s.storage) a b s cleanup_steps [] (λ u e. tt) there (ready, refl) r

  is_empty-valid : (vin : Str) → Vin.validate vin ≡ true → is_empty vin ≡ false
  unfolding Vin.validate
  is_empty-valid [] h = absurd (ground (arith, h))
  is_empty-valid (c ∷ vin) h = refl

  -- Let an application serve over the store, its service with write protection enabled, an
  -- unprotected storage and no fault ahead, and let the VIN be valid and the UID read and UTF-8. If
  -- the request WriteVin of that VIN is handled, then it is answered with SUCCESS. Let any requests
  -- follow, the program end by `cleanup` with any requests between its steps, and a new program
  -- begin over the disk with a configuration of the same store and a server that starts. Then its
  -- initialization returns true, and the request ReadVin to it is answered with that VIN.
  pub vin_survives_restart :
      (i j : Inputs) (what vin params params' : Str) (answer : Option Str) (a b c : Application)
      (cfg : Settings)
      → (h : IsServing a) → a.store ≡ some st
      → h.service.config.enable_write_protection ≡ true
      → IsCalm J st L h.service
      → Vin.validate vin ≡ true
      → i.uid.succeeded ≡ true
      → J.utf8 i.uid.uid ≡ true
      → extract_string_field J params (codes "vin") ≡ vin
      → handle_request J i what (method_value MethodId.write_vin) params a ≡ some (answer, b)
      → Reach J b cleanup_steps c []
      → store_of cfg ≡ st
      → let reopened = initialize J true (some cfg) (new_application c.disk) in
        Answers J L 0 (success_members true) answer
        × (reopened.0 ≡ true)
        × ((told : Option Str) × (d : Application) × (handle_request J j what
                (method_value MethodId.read_vin)
                params'
                reopened.1
              ≡ some (told, d))
            × Answers J L 0 ((codes "vin", text vin) ∷ []) told)
  unfolding code_value
  vin_survives_restart i j what vin params params' answer a b c cfg h store enabled calm valid uid
        named sent e r same =
      let s = h.service in
      let t = (Service.write_vin J st i vin (asked s)).1 in
      let calm' : IsCalm J st L (asked s) = record {
        unprotected = calm.unprotected;
        weather = calm.weather;
      } in
      let (answers, left) =
        write_vin_request J st L i what params vin answer a b h store sent
          (is_empty-valid vin valid) e in
      let (ok, done) =
        write_vin_completes J st L i vin (asked s) h.ready h.running calm' valid uid named in
      let (again, _, there) =
        restart_protected J st L i vin (asked s) (config_of cfg) h.ready h.running enabled calm'
          valid uid named in
      let (on, opened) =
        initialize_opens J st cfg t.storage.disk same
          (initialize_calm st t.storage.disk done.weather).0 again in
      rw (protected_disk b c t left.serves left.there left.ready (done.protection ∙ enabled) r) (
        rw ok at answers,
        on,
        read_vin_request J st L j what params' vin _ _ opened there
            (L.utf8-ascii vin (validate-is_ascii vin valid)),
      )
