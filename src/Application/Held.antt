-- ===== src/Application/Held.antt =====
-- What the requests and the steps of `cleanup` in src/prov_application.cpp leave of the storage.
use iov_vehicle_tbox_prov.Base.{
  ℕ, ◌≡◌, refl, sym, ap, ◌∙◌, if◌then◌else◌, ◌&&◌, Bool, true, false, Option-cases, inl, inr,
  Option, none, some, List, ◌∷◌, Str, arith,
}
use iov_vehicle_tbox_prov.Json.{JsonLibrary, ◌>>=◌}
use iov_vehicle_tbox_prov.Store.{Store, Disk}
use iov_vehicle_tbox_prov.Service.{Inputs, begin_shutdown}
use iov_vehicle_tbox_prov.Service.Actions.{Service}
use iov_vehicle_tbox_prov.Dispatcher.{dispatch}
use iov_vehicle_tbox_prov.Dispatcher.Effects.{IsKept, dispatch_keeps}
use iov_vehicle_tbox_prov.Application.{
  Application, Step, perform, quiesce, stop_server, drop_dispatcher, drop_service, drop_providers,
  drop_store, reset_service,
}
use iov_vehicle_tbox_prov.Application.System.{
  disk_of, answered, handle_request, Reach, here, clean, serve,
}

module _ (J : JsonLibrary) where
  met :
      (i : Inputs) (what params : Str) (method_id : ℕ) (answer : Option Str) (a b : Application)
      (there : Bool) (o : Option Service) (p : Option Store)
      → (if there
          then (do s ← o; st ← p; some (answered J i what method_id params st s a))
          else none)
        ≡ some (answer, b)
      → (st : Store) × (s : Service) × (p ≡ some st)
        × (o ≡ some s)
        × (b ≡ record a { service = some (dispatch J st i what method_id params s).1 })
  met i what params method_id answer a b true (some s) (some st) e = (
    st,
    s,
    refl,
    refl,
    ap (λ (o : Option (Option Str × Application)). elim o [ none ↦ a | some r ↦ r.1 ]) (sym e),
  )
  met i what params method_id answer a b true (some s) none e = absurd (ground (arith, e))
  met i what params method_id answer a b true none p e = absurd (ground (arith, e))
  met i what params method_id answer a b false o p e = absurd (ground (arith, e))

  -- A request that is handled has met a service and a store.
  pub handle_request-met :
      (i : Inputs) (what params : Str) (method_id : ℕ) (answer : Option Str) (a b : Application)
      → handle_request J i what method_id params a ≡ some (answer, b)
      → (st : Store) × (s : Service) × (a.store ≡ some st)
        × (a.service ≡ some s)
        × (b ≡ record a { service = some (dispatch J st i what method_id params s).1 })
  unfolding handle_request
  handle_request-met i what params method_id answer a b e =
      met i what params method_id answer a b (a.dispatcher && a.providers) a.service a.store e

-- What holds of the service that is there holds of the one that is.
pub only_service :
    (D : Service → Type 0) (o : Option Service) (s t : Service)
    → o ≡ some s
    → o ≡ some t
    → D s
    → D t
only_service D o s t there e h =
    rw (ap {B = Service} (λ (o : Option Service). elim o [ none ↦ s | some u ↦ u ]) (sym e ∙ there))
      h

-- A predicate on services that every request keeps over a store of some kind, one on disks that
-- follows from it, and the application with such a store and such a service, or without.
module _ (S : Store → Type 0) (E : Disk → Type 0) (D : Service → Type 0) where
  pub record IsHeld (a : Application) : Type 0 where
    pub store : (st : Store) → a.store ≡ some st → S st
    pub disk : E (disk_of a)
    pub service : (s : Service) → a.service ≡ some s → D s

module _ (J : JsonLibrary) (S : Store → Type 0) (E : Disk → Type 0) (D : Service → Type 0)
    (kept : (st : Store) → S st → IsKept J st D) (over : (s : Service) → D s → E s.storage.disk)
    (down : (s : Service) → D s → D (begin_shutdown s)) where
  -- Such a service in an application.
  pub some-IsHeld :
      (a : Application) (s : Service)
      → ((st : Store) → a.store ≡ some st → S st)
      → D s
      → IsHeld S E D (record a { service = some s })
  some-IsHeld a s kind there = record {
    store = kind;
    disk = over s there;
    service = λ t e. only_service D (some s) s t refl e there;
  }

  serve-IsHeld :
      (i : Inputs) (what params : Str) (method_id : ℕ) (answer : Option Str) (a b : Application)
      → IsHeld S E D a
      → handle_request J i what method_id params a ≡ some (answer, b)
      → IsHeld S E D b
  serve-IsHeld i what params method_id answer a b held e =
      let (st, s, opened, there, left) =
        handle_request-met J i what params method_id answer a b e in
      rw left (
        some-IsHeld a _ held.store (
          dispatch_keeps J st i D (kept st (held.store st opened)) what method_id params s
            (held.service s there)))

  perform-IsHeld : (step : Step) (a : Application) → IsHeld S E D a → IsHeld S E D (perform step a)
  unfolding perform reset_service
  perform-IsHeld quiesce a held = elim (Option-cases a.service) [
    | inl gone ↦ record {
      store = held.store;
      disk = rw gone (rw gone at held.disk);
      service = λ s e. absurd (ground (arith, gone, e));
    }
    | inr (s, there) ↦
        rw there (some-IsHeld a (begin_shutdown s) held.store (down s (held.service s there)))
  ]
  perform-IsHeld stop_server a held = record {
    store = held.store;
    disk = held.disk;
    service = held.service;
  }
  perform-IsHeld drop_dispatcher a held = record {
    store = held.store;
    disk = held.disk;
    service = held.service;
  }
  perform-IsHeld drop_service a held = record {
    store = held.store;
    disk = held.disk;
    service = λ s e. absurd (ground (arith, e));
  }
  perform-IsHeld drop_providers a held = record {
    store = held.store;
    disk = held.disk;
    service = held.service;
  }
  perform-IsHeld drop_store a held = record {
    store = λ st e. absurd (ground (arith, e));
    disk = held.disk;
    service = held.service;
  }

  pub Reach-IsHeld :
      (a₀ : Application) (steps : List Step) (a : Application) (rest : List Step)
      → IsHeld S E D a₀
      → Reach J a₀ steps a rest
      → IsHeld S E D a
  Reach-IsHeld a₀ steps a rest held here = held
  Reach-IsHeld a₀ steps b rest held (clean {a} {step} r) =
      perform-IsHeld step a (Reach-IsHeld a₀ steps a (step ∷ rest) held r)
  Reach-IsHeld a₀ steps b rest held (serve {a} i what params method_id answer r on e) =
      serve-IsHeld i what params method_id answer a b (Reach-IsHeld a₀ steps a rest held r) e

  started-IsHeld :
      (a : Application) (s : Service)
      → ((st : Store) → a.store ≡ some st → S st)
      → a.service ≡ some s
      → D s
      → IsHeld S E D a
  started-IsHeld a s kind there keeps = record {
    store = kind;
    disk = rw there (over s keeps);
    service = λ t e. only_service D a.service s t there e keeps;
  }

  -- The disk keeps its predicate from an application with such a service.
  pub Reach-disk :
      (a₀ a : Application) (s : Service) (steps rest : List Step)
      → ((st : Store) → a₀.store ≡ some st → S st)
      → a₀.service ≡ some s
      → D s
      → Reach J a₀ steps a rest
      → E (disk_of a)
  Reach-disk a₀ a s steps rest kind there keeps r =
      (Reach-IsHeld a₀ steps a rest (started-IsHeld a₀ s kind there keeps) r).disk
