-- ===== src/State/Settings/Stored.antt =====
-- Settings that were stored are loaded again, and a broken storage gives the defaults.
use readflow.Common.{
  ◌≡◌, refl, Bool, true, false, not, Option, none, some, List, ◌++◌, String, str_eq, arith,
  Bool-cases, inl, inr, Option-cases, subst, ◌||◌, ◌⊎◌, sym,
}
use readflow.State.Settings.{
  ReaderSettings, default_reader_settings, Value, Json, object, Browser, Read, missing, threw,
  found, load_from_storage, persist, SettingsStore, get_reader_settings, set_reader_settings,
  store_settings, invalidate_reader_settings_cache, sanitize_fields, sanitize_reader_settings,
  fields_of, from_read,
}
use readflow.State.Settings.Sanitized.{
  IsInRange, sanitize_fields-fields_of, sanitize_fields-IsInRange,
  sanitize_reader_settings-IsInRange,
}

-- What is assumed of a storage that works and of JSON, for the settings that are written: an item that was
-- set is read back, and the text of the settings is not empty and parses to their object.
pub record IsWorking {S : Type 0} (b : Browser S) (settings : ReaderSettings) : Type 0 where
  pub available : b.has_storage ≡ true
  pub reads_back : (raw : String) (s t : S) → b.set_item raw s ≡ some t → b.get_item t ≡ found raw
  pub not_blank : str_eq (b.stringify (object (fields_of settings))) "" ≡ false
  pub parses :
      b.parse (b.stringify (object (fields_of settings))) ≡ some (object (fields_of settings))

module _ {S : Type 0} (b : Browser S) where
  load-persist :
      (settings : ReaderSettings) (s t : S)
      → IsWorking b settings
      → IsInRange settings
      → b.set_item (b.stringify (object (fields_of settings))) s ≡ some t
      → load_from_storage b (persist b settings s) ≡ settings
  unfolding load_from_storage persist sanitize_reader_settings
  load-persist settings s t w r set =
      rw
        (
          w.available,
          set,
          w.reads_back _ s t set,
          w.not_blank,
          w.parses,
          sanitize_fields-fields_of settings r,
        )
        refl

  get_reader_settings-storage :
      (m : SettingsStore S) → (get_reader_settings b m).1.storage ≡ m.storage
  unfolding get_reader_settings
  get_reader_settings-storage m = elim (Option-cases m.cached) [
    | inl cold ↦ rw cold refl
    | inr (settings, warm) ↦ rw warm refl
  ]

  -- With a storage and a parser that work, what a change of settings left in the cache is in range, and a
  -- reload after the cache was dropped gives the same settings, if the write did not fail.
  pub set_reader_settings-reload :
      (patch : List (String × Value)) (m : SettingsStore S) (t : S)
      → IsWorking b (get_reader_settings b (set_reader_settings b patch m)).0
      → b.set_item
          (b.stringify
            (object (fields_of (get_reader_settings b (set_reader_settings b patch m)).0)))
          m.storage
        ≡ some t
      → IsInRange (get_reader_settings b (set_reader_settings b patch m)).0
        × ((get_reader_settings b
              (invalidate_reader_settings_cache b (set_reader_settings b patch m))).0
            ≡ (get_reader_settings b (set_reader_settings b patch m)).0)
  unfolding set_reader_settings store_settings invalidate_reader_settings_cache get_reader_settings
  set_reader_settings-reload patch m t w set =
      let fields = fields_of (get_reader_settings b m).0 ++ patch in
      let settings = sanitize_fields fields in
      let range = sanitize_fields-IsInRange fields in
      let same = get_reader_settings-storage m in
      let written =
        subst (λ s. b.set_item (b.stringify (object (fields_of settings))) s ≡ some t) (sym same)
          set in
      (range, load-persist settings (get_reader_settings b m).1.storage t w range written)

  abbrev is_unparsable : Option Json → Bool
  is_unparsable none = true
  is_unparsable (some value) = false

  -- No item can be read from the storage, or it is no JSON.
  abbrev is_broken_read : Read → Bool
  is_broken_read missing = true
  is_broken_read threw = true
  is_broken_read (found raw) = is_unparsable (b.parse raw)

  abbrev pub is_broken : S → Bool
  is_broken s = not b.has_storage || is_broken_read (b.get_item s)

  from_read-broken :
      (r : Read)
      → IsInRange (from_read b r)
        × ((is_broken_read r ≡ false) ⊎ (from_read b r ≡ default_reader_settings))
  from_read-broken missing = (omega arith, inr refl)
  from_read-broken threw = (omega arith, inr refl)
  from_read-broken (found raw) = elim (Bool-cases (str_eq raw "")) [
    | inl blank ↦ rw blank (omega arith, inr refl)
    | inr full ↦ rw full (elim (Option-cases (b.parse raw)) [
      | inl bad ↦ rw bad (omega arith, inr refl)
      | inr (value, good) ↦ rw good (sanitize_reader_settings-IsInRange value, inl refl)
    ])
  ]

  -- Loading never fails: whatever the storage holds and however reading it fails, the settings are in
  -- range, and they are the defaults if there is no storage, no item, an error, or a text that is no JSON.
  pub load_from_storage-broken :
      (s : S)
      → IsInRange (load_from_storage b s)
        × ((is_broken s ≡ false) ⊎ (load_from_storage b s ≡ default_reader_settings))
  unfolding load_from_storage
  load_from_storage-broken s = elim (Bool-cases b.has_storage) [
    | inl there ↦ rw there (from_read-broken (b.get_item s))
    | inr no_storage ↦ rw no_storage (omega arith, inr refl)
  ]
