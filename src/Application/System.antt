-- ===== src/Application/System.antt =====
-- The program of src/prov_application.cpp while it ends: the main thread takes the steps of
-- `cleanup`, and the threads of the server hand requests to the dispatcher between any two of them.
use iov_vehicle_tbox_prov.Base.{
  ℕ, ◌≡◌, if◌then◌else◌, true, ◌&&◌, Option, none, some, List, ◌∷◌, Str,
}
use iov_vehicle_tbox_prov.Json.{JsonLibrary, ◌>>=◌}
use iov_vehicle_tbox_prov.Store.{Store, Disk}
use iov_vehicle_tbox_prov.Service.{Inputs}
use iov_vehicle_tbox_prov.Service.Actions.{Service}
use iov_vehicle_tbox_prov.Dispatcher.{dispatch}
use iov_vehicle_tbox_prov.Application.{Application, Step, perform, quiesce, disk_after}

-- The disk as the service has left it so far.
abbrev pub disk_of : Application → Disk
disk_of a = disk_after a.service a.disk

module _ (J : JsonLibrary) where
  abbrev pub answered :
      Inputs → Str → ℕ → Str → Store → Service → Application → Option Str × Application
  answered i what method_id params st s a =
      let (answer, t) = dispatch J st i what method_id params s in
      (answer, record a { service = some t })

  -- The handler that `initialize` gives to the server, which holds a plain pointer to the
  -- dispatcher, as that does to the service, and the service to the providers and the store:
  -- `none` is the use of one that is gone.
  unfoldable pub handle_request :
      Inputs → Str → ℕ → Str → Application → Option (Option Str × Application)
  handle_request i what method_id params a =
      if a.dispatcher && a.providers
      then (do s ← a.service; st ← a.store; some (answered i what method_id params st s a))
      else none

  -- What `quiesce`, which takes no mutex, leaves when all that was in flight is answered. At most one
  -- request is past the test of the flag by then, as it holds the mutex of the service. It does not
  -- read the flag again (Service/Overtaken), so it ends as it would have without that step, and the
  -- flag is set then. All others test the flag later. Only the order of log events may differ.
  pub data Quiesced (a : Application) : Application → Type 0 where
    alone : Quiesced a (perform quiesce a)
    overtaken :
        {b : Application} (i : Inputs) (what params : Str) (method_id : ℕ) (answer : Option Str)
        → handle_request i what method_id params a ≡ some (answer, b)
        → Quiesced a (perform quiesce b)

  -- What is reached from an application whose main thread has steps to take: the application, and
  -- the steps that are left. The server serves as long as it is not stopped.
  pub data Reach (a₀ : Application) (steps : List Step) : Application → List Step → Type 0 where
    here : Reach a₀ steps a₀ steps
    clean :
        {a : Application} {step : Step} {rest : List Step}
        → Reach a₀ steps a (step ∷ rest)
        → Reach a₀ steps (perform step a) rest
    serve :
        {a b : Application} {rest : List Step} (i : Inputs) (what params : Str) (method_id : ℕ)
        (answer : Option Str)
        → Reach a₀ steps a rest
        → a.server ≡ true
        → handle_request i what method_id params a ≡ some (answer, b)
        → Reach a₀ steps b rest
