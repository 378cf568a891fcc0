-- ===== src/Legacy/Termination.antt =====
-- How src/main_legacy.cpp ends.
use iov_vehicle_tbox_prov.Base.{
  ℕ, zero, suc, ◌+◌, ◌≤◌, ◌<◌, ◌≡◌, refl, ◌∙◌, ◌||◌, Bool, true, false, Bool-cases, inl, inr,
  Option, none, some, List, [], ◌∷◌, codes, arith,
}
use iov_vehicle_tbox_prov.Errors.{is_success}
use iov_vehicle_tbox_prov.Json.{JsonLibrary}
use iov_vehicle_tbox_prov.Store.{Disk}
use iov_vehicle_tbox_prov.Application.{Settings, store_of, config_of, socket_path_of, ipc_config_of}
use iov_vehicle_tbox_prov.Service
use iov_vehicle_tbox_prov.Service.{new_service}
use iov_vehicle_tbox_prov.Service.Actions.{Service}
use iov_vehicle_tbox_prov.Legacy.{
  Signal, sigint, sigterm, sighup, sigpipe, Process, Platform, deliver, deliver_all, poll, run_loop,
  finish, serve, configured, with_configuration, install_signal_handlers, log_level, main,
  new_process,
}

-- A signal of a list asks for the shutdown.
abbrev pub asks : List Signal → Bool
asks [] = false
asks (sigpipe ∷ rest) = asks rest
asks (_ ∷ rest) = true

requested-deliver_all :
    (ss : List Signal) (p : Process)
    → (deliver_all ss p).shutdown_requested ≡ (p.shutdown_requested || asks ss)
unfolding deliver_all deliver
requested-deliver_all [] p = ground arith
requested-deliver_all (sigpipe ∷ ss) p = requested-deliver_all ss p
requested-deliver_all (sigint ∷ ss) p = requested-deliver_all ss _ ∙ ground arith
requested-deliver_all (sigterm ∷ ss) p = requested-deliver_all ss _ ∙ ground arith
requested-deliver_all (sighup ∷ ss) p = requested-deliver_all ss _ ∙ ground arith

-- The loop ends with the shutdown asked for.
abbrev Stops : Option Process → Type 0
Stops r = (q : Process) × (r ≡ some q) × (q.shutdown_requested ≡ true)

module _ (arrivals : ℕ → List Signal) where
  poll-asked :
      (fuel n : ℕ) (p : Process)
      → p.shutdown_requested ≡ true
      → Stops (poll (suc fuel) n arrivals p)
  unfolding poll
  poll-asked fuel n p h = simp h (p, refl, h)

  -- A signal in the sleep `k` sleeps ahead ends it, with fuel for the tests until then.
  poll-Stops :
      (k fuel n : ℕ) (p : Process)
      → asks (arrivals (n + k)) ≡ true
      → k + 1 < fuel
      → Stops (poll fuel n arrivals p)
  unfolding poll
  poll-Stops k zero n p h lt = absurd (omega (arith, lt))
  poll-Stops k (suc zero) n p h lt = absurd (omega (arith, lt))
  poll-Stops zero (suc (suc fuel)) n p h lt = elim (Bool-cases p.shutdown_requested) [
    | inl already ↦ simp already (p, refl, already)
    | inr running ↦ simp running (
        poll-asked fuel (n + 1) (deliver_all (arrivals n) p)
          (requested-deliver_all (arrivals n) p ∙ ground (arith, running, h)))
  ]
  poll-Stops (suc k) (suc (suc fuel)) n p h lt = elim (Bool-cases p.shutdown_requested) [
    | inl already ↦ simp already (p, refl, already)
    | inr running ↦
        let later : n + 1 + k ≡ n + suc k = omega arith in
        simp running (
          poll-Stops k (suc fuel) (n + 1) (deliver_all (arrivals n) p) (rw later h)
            (omega (arith, lt)))
  ]

-- The process ended with status 0 or 1, and left none of its parts.
unfoldable pub HasEnded : Option (ℕ × Process) → Type 0
HasEnded r =
    (c : ℕ) × (p : Process) × (r ≡ some (c, p))
    × (c ≤ 1)
    × (p.service ≡ none)
    × (p.dispatcher ≡ false)
    × (p.server ≡ false)

finish-HasEnded : (r : Option Process) → Stops r → HasEnded (finish r)
unfolding HasEnded
finish-HasEnded none (q, e, _) = absurd (ground (arith, e))
finish-HasEnded (some p) _ = (0, _, refl, omega arith, refl, refl, refl)

module _ (fuel k : ℕ) (os : Platform) (enough : k + 1 < fuel)
    (asked : asks (os.arrivals k) ≡ true) where
  run_loop-HasEnded : (p : Process) → HasEnded (run_loop fuel os p)
  unfolding run_loop
  run_loop-HasEnded p =
      let first : 0 + k ≡ k = omega arith in
      finish-HasEnded _ (poll-Stops os.arrivals k fuel 0 _ (rw first asked) enough)

  serve-HasEnded :
      (cfg : Settings) (s : Service) (p : Process)
      → (p.service ≡ none) × (p.dispatcher ≡ false) × (p.server ≡ false)
      → HasEnded (serve fuel os cfg s p)
  unfolding serve HasEnded
  serve-HasEnded cfg s p (service, dispatcher, server) =
      elim (Bool-cases (os.start_server (socket_path_of cfg) (ipc_config_of cfg))) [
        | inl started ↦ simp started (run_loop-HasEnded _)
        | inr failed ↦ simp failed (1, _, refl, omega arith, service, dispatcher, server)
      ]

  configured-HasEnded :
      (J : JsonLibrary) (cfg : Settings) (d : Disk)
      → HasEnded (configured J fuel os cfg (new_process d))
  unfolding configured HasEnded
  configured-HasEnded J cfg d =
      elim (Bool-cases
        (os.init_log (log_level (cfg.get_string (codes "common.log.level") (codes "info"))))) [
          | inr failed ↦ simp failed (1, _, refl, omega arith, refl, refl, refl)
          | inl logs ↦
              elim (Bool-cases (
                is_success
                  (Service.initialize J (store_of cfg) (new_service (config_of cfg) d)).0)) [
                    | inl ok ↦ simp (logs, ok) (serve-HasEnded cfg _ _ (refl, refl, refl))
                    | inr failed ↦ simp (logs, failed) (1, _, refl, omega arith, refl, refl, refl)
                  ]
        ]

  with_configuration-HasEnded :
      (J : JsonLibrary) (c : Option Settings) (d : Disk)
      → HasEnded (with_configuration J fuel os c (new_process d))
  unfolding HasEnded with_configuration
  with_configuration-HasEnded J none d = (1, _, refl, omega arith, refl, refl, refl)
  with_configuration-HasEnded J (some cfg) d = configured-HasEnded J cfg d

  -- Let SIGINT, SIGTERM or SIGHUP arrive in the sleep `k` of the run loop, and let the fuel be
  -- enough for its first `k + 2` tests. Then the program ends, whatever the platform answers and
  -- whatever goes wrong on the device: with status 0 or 1, and with no service, dispatcher or
  -- server left.
  pub main-HasEnded : (J : JsonLibrary) (d : Disk) → HasEnded (main J fuel os d)
  unfolding main HasEnded
  main-HasEnded J d = elim (Bool-cases (install_signal_handlers os.sigaction)) [
    | inl installed ↦ simp installed (with_configuration-HasEnded J os.configuration d)
    | inr failed ↦ simp failed (1, _, refl, omega arith, refl, refl, refl)
  ]
