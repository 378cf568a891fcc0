-- ===== src/Application/Lifetimes.antt =====
-- What a request meets at any moment of the end of the program of src/prov_application.cpp.
use iov_vehicle_tbox_prov.Base.{
  ℕ, ◌≡◌, refl, sym, ap, ◌∙◌, true, false, Option, none, some, List, [], ◌∷◌, Str, arith,
}
use iov_vehicle_tbox_prov.Json.{JsonLibrary}
use iov_vehicle_tbox_prov.Store.{Store}
use iov_vehicle_tbox_prov.Service.{Inputs, begin_shutdown}
use iov_vehicle_tbox_prov.Service.Actions.{Service}
use iov_vehicle_tbox_prov.Dispatcher.{dispatch}
use iov_vehicle_tbox_prov.Application.{
  Application, Step, perform, cleanup_steps, stop_server, drop_dispatcher, drop_service,
  drop_providers, drop_store, reset_service,
}
use iov_vehicle_tbox_prov.Application.Lifecycle.{IsReleased, IsServing}
use iov_vehicle_tbox_prov.Application.System.{answered, handle_request, Reach, here, clean, serve}

-- All that the handler of a request uses.
pub record IsAlive (a : Application) : Type 0 where
  pub root : Store
  pub store : a.store ≡ some root
  pub providers : a.providers ≡ true
  pub dispatcher : a.dispatcher ≡ true
  pub service : Service
  pub held : a.service ≡ some service

pub IsServing-IsAlive : (a : Application) → IsServing a → IsAlive a
IsServing-IsAlive a h = record {
  root = h.root;
  store = h.store;
  providers = h.providers;
  dispatcher = h.dispatcher;
  service = h.service;
  held = h.held;
}

module _ (J : JsonLibrary) where
  -- Then it is answered.
  pub handle_request-answered :
      (i : Inputs) (what params : Str) (method_id : ℕ) (a : Application)
      → (alive : IsAlive a)
      → handle_request J i what method_id params a
        ≡ some (answered J i what method_id params alive.root alive.service a)
  unfolding handle_request
  handle_request-answered i what params method_id a alive =
      simp (alive.dispatcher, alive.providers, alive.held, alive.store) refl

  -- What there is when the steps that are left are those.
  data Phase (a : Application) : List Step → Type 0 where
    running : IsAlive a → Phase a cleanup_steps
    quiet :
        IsAlive a
        → Phase a (stop_server ∷ drop_dispatcher ∷ drop_service ∷ drop_providers ∷ drop_store ∷ [])
    stopped :
        a.server ≡ false
        → Phase a (drop_dispatcher ∷ drop_service ∷ drop_providers ∷ drop_store ∷ [])
    unlinked :
        a.server ≡ false
        → a.dispatcher ≡ false
        → Phase a (drop_service ∷ drop_providers ∷ drop_store ∷ [])
    alone :
        a.server ≡ false
        → a.dispatcher ≡ false
        → a.service ≡ none
        → Phase a (drop_providers ∷ drop_store ∷ [])
    bare :
        a.server ≡ false
        → a.dispatcher ≡ false
        → a.service ≡ none
        → a.providers ≡ false
        → Phase a (drop_store ∷ [])
    ended : IsReleased a → Phase a []

  perform-Phase :
      (a : Application) (step : Step) (rest : List Step)
      → Phase a (step ∷ rest)
      → Phase (perform step a) rest
  unfolding perform reset_service
  perform-Phase a step rest (running alive) = quiet (record {
    root = alive.root;
    store = alive.store;
    providers = alive.providers;
    dispatcher = alive.dispatcher;
    service = begin_shutdown alive.service;
    held = rw alive.held refl;
  })
  perform-Phase a step rest (quiet alive) = stopped refl
  perform-Phase a step rest (stopped server) = unlinked server refl
  perform-Phase a step rest (unlinked server dispatcher) = alone server dispatcher refl
  perform-Phase a step rest (alone server dispatcher service) = bare server dispatcher service refl
  perform-Phase a step rest (bare server dispatcher service providers) = ended (record {
    stage = refl;
    store = refl;
    providers = providers;
    dispatcher = dispatcher;
    server = server;
    service = service;
  })

  -- What a request that is answered leaves.
  pub served :
      (i : Inputs) (what params : Str) (method_id : ℕ) (answer : Option Str) (a b : Application)
      → (alive : IsAlive a) → handle_request J i what method_id params a ≡ some (answer, b)
      → b ≡ (answered J i what method_id params alive.root alive.service a).1
  served i what params method_id answer a b alive e =
      ap (λ (o : Option (Option Str × Application)). elim o [ none ↦ a | some r ↦ r.1 ])
        (sym e ∙ handle_request-answered i what params method_id a alive)

  served-IsAlive :
      (i : Inputs) (what params : Str) (method_id : ℕ) (answer : Option Str) (a b : Application)
      → IsAlive a
      → handle_request J i what method_id params a ≡ some (answer, b)
      → IsAlive b
  served-IsAlive i what params method_id answer a b alive e =
      rw (served i what params method_id answer a b alive e) (record {
        root = alive.root;
        store = alive.store;
        providers = alive.providers;
        dispatcher = alive.dispatcher;
        service = (dispatch J alive.root i what method_id params alive.service).1;
        held = refl;
      })

  -- Where the server serves, everything is there, and the phase is one of any such application.
  Phase-serving :
      (a : Application) (rest : List Step)
      → Phase a rest
      → a.server ≡ true
      → IsAlive a × ((b : Application) → IsAlive b → Phase b rest)
  Phase-serving a rest (running alive) on = (alive, λ b. running)
  Phase-serving a rest (quiet alive) on = (alive, λ b. quiet)
  Phase-serving a rest (stopped server) on = absurd (ground (arith, server, on))
  Phase-serving a rest (unlinked server _) on = absurd (ground (arith, server, on))
  Phase-serving a rest (alone server _ _) on = absurd (ground (arith, server, on))
  Phase-serving a rest (bare server _ _ _) on = absurd (ground (arith, server, on))
  Phase-serving a rest (ended released) on = absurd (ground (arith, released.server, on))

  Reach-Phase :
      (a₀ : Application) (steps : List Step) (a : Application) (rest : List Step)
      → Phase a₀ steps
      → Reach J a₀ steps a rest
      → Phase a rest
  Reach-Phase a₀ steps a rest phase here = phase
  Reach-Phase a₀ steps b rest phase (clean {a} {step} r) =
      perform-Phase a step rest (Reach-Phase a₀ steps a (step ∷ rest) phase r)
  Reach-Phase a₀ steps b rest phase (serve {a} i what params method_id answer r on e) =
      let (alive, same) = Phase-serving a rest (Reach-Phase a₀ steps a rest phase r) on in
      same b (served-IsAlive i what params method_id answer a b alive e)

  Phase-ended : (a : Application) → Phase a [] → IsReleased a
  Phase-ended a (ended released) = released

  -- From an application that serves, let the steps of `cleanup` be taken in their order, and any
  -- requests be handled between them while the server is not stopped. At every moment at which the
  -- server still serves, any request is answered with what the dispatcher gives for a service that
  -- is there: the handler never uses a part that is gone.
  pub never_dangles :
      (a₀ a : Application) (rest : List Step)
      → IsServing a₀
      → Reach J a₀ cleanup_steps a rest
      → a.server ≡ true
      → (i : Inputs) (what params : Str) (method_id : ℕ)
      → (st : Store) × (s : Service) × (a.store ≡ some st)
        × (a.service ≡ some s)
        × (handle_request J i what method_id params a
            ≡ some (
              (dispatch J st i what method_id params s).0,
              record a { service = some (dispatch J st i what method_id params s).1 },
            ))
  never_dangles a₀ a rest serving r on i what params method_id =
      let (alive, _) =
        Phase-serving a rest
          (Reach-Phase a₀ cleanup_steps a rest (running (IsServing-IsAlive a₀ serving)) r) on in
      (
        alive.root,
        alive.service,
        alive.store,
        alive.held,
        handle_request-answered i what params method_id a alive,
      )

  -- However the requests fall between the steps of `cleanup`, no part is left at its end.
  pub cleanup_ends :
      (a₀ a : Application) → IsServing a₀ → Reach J a₀ cleanup_steps a [] → IsReleased a
  cleanup_ends a₀ a serving r =
      Phase-ended a (Reach-Phase a₀ cleanup_steps a [] (running (IsServing-IsAlive a₀ serving)) r)
