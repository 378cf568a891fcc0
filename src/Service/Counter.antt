-- ===== src/Service/Counter.antt =====
-- `rewrite_count` of src/prov_service.cpp over repeated writes of one VIN.
use iov_vehicle_tbox_prov.Base.{
  ℕ, ◌+◌, ◌%◌, ◌^◌, ◌<◌, ◌≡◌, refl, ap, ◌∙◌, true, false, some, List, [], ◌∷◌, map, length, All,
  Str, str_eq_refl, arith,
}
use mathlib.Core.Path.{subst}
use iov_vehicle_tbox_prov.Types.{VehicleBinding}
use iov_vehicle_tbox_prov.Vin
use iov_vehicle_tbox_prov.Json.{JsonLibrary, IsLawful}
use iov_vehicle_tbox_prov.Store.{Store}
use iov_vehicle_tbox_prov.Storage
use iov_vehicle_tbox_prov.Service.Actions.{Service, ServiceConfig}
use iov_vehicle_tbox_prov.Service.Frame.{SameFrame-refl, write_vin-SameFrame}
use iov_vehicle_tbox_prov.Service.Completion.{final_binding, write_vin_completes, vin-new_binding}
use iov_vehicle_tbox_prov.Service.DataCompletion.{IsOpen}
use iov_vehicle_tbox_prov.Service.Requests.{serve, serve_all, write_vin_request}
use iov_vehicle_tbox_prov.Service.{Inputs, new_binding, write_vin}

module _ (J : JsonLibrary) (st : Store) (L : IsLawful J) (vin : Str) where
  -- The UID is read, and is UTF-8.
  abbrev pub IsReadable : Inputs → Type 0
  IsReadable i = (i.uid.succeeded ≡ true) × (J.utf8 i.uid.uid ≡ true)

  -- An open service without write protection that holds a binding of the VIN with that count.
  pub record Counts (n : ℕ) (s : Service) : Type 0 where
    pub is_open : IsOpen J st L s
    pub disabled : s.config.enable_write_protection ≡ false
    pub binding : VehicleBinding
    pub there : Storage.read_vehicle_binding J st s.storage ≡ some binding
    pub same : binding.vin ≡ vin
    pub count : binding.rewrite_count ≡ n

  rewrite_count-new_binding :
      (i : Inputs) (uid : Str) (b : VehicleBinding)
      → b.vin ≡ vin
      → (new_binding i vin uid (some b)).rewrite_count ≡ (b.rewrite_count + 1) % 2 ^ 32
  unfolding new_binding
  rewrite_count-new_binding i uid b same = simp (same, str_eq_refl) refl

  write_vin-Counts :
      (i : Inputs) (n : ℕ) (s : Service)
      → Vin.validate vin ≡ true
      → IsReadable i
      → Counts n s
      → Counts ((n + 1) % 2 ^ 32) (write_vin J st i vin s).1
  write_vin-Counts i n s valid (uid, text) c =
      let o = c.is_open in
      let (_, done) = write_vin_completes J st L i vin s o.ready o.running o.calm valid uid text in
      let frame = (write_vin-SameFrame J st s i vin).at s (SameFrame-refl s) in
      record {
        is_open = record {
          ready = frame.initialized ∙ o.ready;
          running = frame.shutting_down ∙ o.running;
          calm = record { unprotected = done.protection ∙ c.disabled; weather = done.weather };
        };
        disabled = ap (λ (k : ServiceConfig). k.enable_write_protection) frame.config ∙ c.disabled;
        binding = final_binding J st L i vin i.uid.uid (some c.binding);
        there = done.there ∙ ap (λ o. some (final_binding J st L i vin i.uid.uid o)) c.there;
        same = vin-new_binding J st L i vin i.uid.uid (some c.binding);
        count = rewrite_count-new_binding i i.uid.uid c.binding c.same ∙ rw c.count refl;
      }

  -- Let write protection be disabled and the service open, and let it hold a binding of a valid
  -- VIN whose rewrite count is `n`, below 2^32. After any number of writes of the same VIN, each
  -- with a readable UID in UTF-8, it is open still and holds a binding of that VIN whose rewrite
  -- count is `n` and that number, modulo 2^32.
  pub write_vin-rewrite_count :
      (is : List Inputs) (n : ℕ) (s : Service)
      → Vin.validate vin ≡ true
      → All IsReadable is
      → n < 2 ^ 32
      → Counts n s
      → Counts ((n + length is) % 2 ^ 32) (serve_all J st (map (λ i. write_vin_request i vin) is) s)
  unfolding serve_all serve
  write_vin-rewrite_count [] n s valid readable small c =
      subst (λ k. Counts k s) (omega (arith, small)) c
  write_vin-rewrite_count (i ∷ is) n s valid (here, later) small c =
      let next = write_vin-Counts i n s valid here c in
      let rest =
        write_vin-rewrite_count is ((n + 1) % 2 ^ 32) (write_vin J st i vin s).1 valid later
          (omega arith) next in
      subst
        (λ k.
          Counts k
            (serve_all J st (map (λ j. write_vin_request j vin) is) (write_vin J st i vin s).1))
        (omega arith) rest
