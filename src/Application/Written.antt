-- ===== src/Application/Written.antt =====
-- The request WriteVin to an application of src/prov_application.cpp that serves.
use iov_vehicle_tbox_prov.Base.{
  ◌≡◌, refl, sym, ap, ◌∙◌, is_empty, true, false, Option, none, some, Str, codes,
}
use iov_vehicle_tbox_prov.Errors.{code_value, is_success}
use iov_vehicle_tbox_prov.Json.{JsonLibrary, IsLawful}
use iov_vehicle_tbox_prov.Store.{Store}
use iov_vehicle_tbox_prov.Service
use iov_vehicle_tbox_prov.Service.{Inputs, new_service, begin_shutdown}
use iov_vehicle_tbox_prov.Service.Frame.{SameFrame, SameFrame-refl, write_vin-SameFrame}
use iov_vehicle_tbox_prov.Dispatcher.{MethodId, method_value, extract_string_field, success_members}
use iov_vehicle_tbox_prov.Dispatcher.Exact.{asked}
use iov_vehicle_tbox_prov.Dispatcher.Responses.{Answers, dispatch-write_vin}
use iov_vehicle_tbox_prov.Service.Actions.{Service}
use iov_vehicle_tbox_prov.Application.{Application}
use iov_vehicle_tbox_prov.Application.Lifecycle.{IsServing}
use iov_vehicle_tbox_prov.Application.System.{handle_request}
use iov_vehicle_tbox_prov.Application.Lifetimes.{IsAlive, handle_request-answered}

module _ (J : JsonLibrary) (st : Store) (L : IsLawful J) where
  some-IsServing :
      (a : Application) (t : Service)
      → IsServing a
      → t.initialized ≡ true
      → t.shutting_down ≡ false
      → IsServing (record a { service = some t })
  some-IsServing a t h ready running = record {
    stage = h.stage;
    root = h.root;
    store = h.store;
    providers = h.providers;
    dispatcher = h.dispatcher;
    server = h.server;
    service = t;
    held = refl;
    ready = ready;
    running = running;
  }

  -- An application that still serves, with that service.
  pub record IsLeft (s : Service) (a : Application) : Type 0 where
    pub serves : IsServing a
    pub there : a.service ≡ some s
    pub ready : s.initialized ≡ true

  some-IsLeft :
      (a : Application) (s t : Service)
      → IsServing a
      → SameFrame s t
      → s.initialized ≡ true
      → s.shutting_down ≡ false
      → IsLeft t (record a { service = some t })
  some-IsLeft a s t h frame ready running = record {
    serves = some-IsServing a t h (frame.initialized ∙ ready) (frame.shutting_down ∙ running);
    there = refl;
    ready = frame.initialized ∙ ready;
  }

  -- What the request WriteVin is answered with, and what it leaves of an application that serves.
  pub write_vin_request :
      (i : Inputs) (what params vin : Str) (answer : Option Str) (a b : Application)
      → (h : IsServing a) → a.store ≡ some st
      → extract_string_field J params (codes "vin") ≡ vin
      → is_empty vin ≡ false
      → handle_request J i what (method_value MethodId.write_vin) params a ≡ some (answer, b)
      → let r = Service.write_vin J st i vin (asked h.service) in
        Answers J L (code_value r.0) (success_members (is_success r.0)) answer × IsLeft r.1 b
  write_vin_request i what params vin answer a b h store sent given e =
      let alive : IsAlive a = record {
        root = st;
        store = store;
        providers = h.providers;
        dispatcher = h.dispatcher;
        service = h.service;
        held = h.held;
      } in
      let same =
        ap {B = Option Str × Application}
          (λ (o : Option (Option Str × Application)). elim o [ none ↦ (answer, b) | some r ↦ r ])
          (sym (handle_request-answered J i what params (method_value MethodId.write_vin) a alive)
            ∙ e) in
      let (answers, left) =
        dispatch-write_vin J st L i what params h.service (ap is_empty sent ∙ given) in
      let (r, told, is) = rw sent at answers in
      let frame =
        (write_vin-SameFrame J st (asked h.service) i vin).at (asked h.service)
          (SameFrame-refl (asked h.service)) in
      (
        (r, sym (ap (λ (x : Option Str × Application). x.0) same) ∙ told, is),
        rw (sym (ap (λ (x : Option Str × Application). x.1) same))
            (rw (left, sent) (some-IsLeft a (asked h.service) _ h frame h.ready h.running)),
      )
