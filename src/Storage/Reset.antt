-- ===== src/Storage/Reset.antt =====
-- `clear_all` of src/protected_storage.cpp on a device without faults, and a start after it.
use iov_vehicle_tbox_prov.Base.{
  ◌≡◌, refl, ◌∙◌, if◌then◌else◌, false, none, [], Str, str_eq, codes, arith,
}
use iov_vehicle_tbox_prov.Errors.{success}
use iov_vehicle_tbox_prov.Json.{JsonLibrary, IsLawful}
use iov_vehicle_tbox_prov.Store
use iov_vehicle_tbox_prov.Store.{Disk, Store, load, remove}
use iov_vehicle_tbox_prov.Store.Laws.{content, initialize_calm}
use iov_vehicle_tbox_prov.Store.Dictionary.{content-remove, remove_calm}
use iov_vehicle_tbox_prov.Storage.{
  Storage, clear_all, initialize, read_vehicle_binding, read_vehicle_config, read_production_info,
}

module _ (J : JsonLibrary) (st : Store) (L : IsLawful J) where
  -- A key without a file loads nothing, also where a directory has its name.
  load-missing : (k : Str) (d : Disk) → content st k d ≡ none → load J st k d ≡ none
  unfolding load content
  load-missing k d h = ground (arith, h, L.parse-empty)

  -- The disk after each removal.
  abbrev removed : Str → Disk → Disk
  removed k d = (remove st k d).1

  abbrev cleared : Disk → Disk
  cleared d =
      removed (codes "protection")
        (removed (codes "production_info") (removed (codes "config") (removed (codes "binding") d)))

  weather-removed : (k : Str) (d : Disk) → d.weather ≡ [] → (removed k d).weather ≡ []
  weather-removed k d calm = (remove_calm J st k d calm).1

  weather-cleared : (d : Disk) → d.weather ≡ [] → (cleared d).weather ≡ []
  weather-cleared d calm =
      weather-removed _ _ (weather-removed _ _ (weather-removed _ _ (weather-removed _ _ calm)))

  content-cleared :
      (j : Str) (d : Disk)
      → d.weather ≡ []
      → content st j (cleared d) ≡ (
          if str_eq (codes "protection") j
          then none
          else if str_eq (codes "production_info") j
          then none
          else if str_eq (codes "config") j
          then none
          else if str_eq (codes "binding") j
          then none
          else content st j d)
  content-cleared j d calm =
      let d₁ = removed (codes "binding") d in
      let d₂ = removed (codes "config") d₁ in
      let d₃ = removed (codes "production_info") d₂ in
      let c₁ : d₁.weather ≡ [] = weather-removed (codes "binding") d calm in
      let c₂ : d₂.weather ≡ [] = weather-removed (codes "config") d₁ c₁ in
      let c₃ : d₃.weather ≡ [] = weather-removed (codes "production_info") d₂ c₂ in
      rw
        (
          content-remove J st (codes "protection") j d₃ c₃,
          content-remove J st (codes "production_info") j d₂ c₂,
          content-remove J st (codes "config") j d₁ c₁,
          content-remove J st (codes "binding") j d calm,
        )
        refl

  load-cleared :
      (j : Str) (d : Disk)
      → d.weather ≡ []
      → (if str_eq (codes "protection") j
          then none
          else if str_eq (codes "production_info") j
          then none
          else if str_eq (codes "config") j
          then none
          else if str_eq (codes "binding") j
          then none
          else content st j d)
        ≡ none
      → load J st j (cleared d) ≡ none
  load-cleared j d calm h = load-missing j (cleared d) (content-cleared j d calm ∙ h)

  -- With no fault ahead, `clear_all` returns SUCCESS, nothing is stored after it of the three
  -- records, and the storage is unprotected, also after a start over the disk that it leaves.
  pub clear_all_resets :
      (s : Storage)
      → s.disk.weather ≡ []
      → ((clear_all J st s).0 ≡ success)
        × (read_vehicle_binding J st (clear_all J st s).1 ≡ none)
        × (read_vehicle_config J st (clear_all J st s).1 ≡ none)
        × (read_production_info J st (clear_all J st s).1 ≡ none)
        × ((clear_all J st s).1.write_protected ≡ false)
        × ((initialize J st (record {
          write_protected = false;
          disk = (clear_all J st s).1.disk;
        })).1.write_protected
            ≡ false)
  unfolding clear_all read_vehicle_binding read_vehicle_config read_production_info initialize
  clear_all_resets s calm =
      let d = cleared s.disk in
      let (ok, files, _) = initialize_calm st d (weather-cleared s.disk calm) in
      let gone = content-cleared (codes "protection") s.disk calm in
      (
        refl,
        simp (load-cleared (codes "binding") s.disk calm refl) refl,
        simp (load-cleared (codes "config") s.disk calm refl) refl,
        simp (load-cleared (codes "production_info") s.disk calm refl) refl,
        refl,
        simp
            (
              ok,
              load-missing (codes "protection") (Store.initialize st d).1
                  (unfold content in (simp files gone)),
            )
            refl,
      )
