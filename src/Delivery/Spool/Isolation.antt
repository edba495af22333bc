-- ===== src/Delivery/Spool/Isolation.antt =====
-- src/delivery/spool.js: `quarantineOtherInstallations` leaves one installation in the live tables.
use sidewisp_plugin.Prelude.{
  ℕ, String, ◌≡◌, ◌≢◌, true, false, [], arith, All, length, any-filter-not, filter_none, Bool-cases,
  inl, inr, eq_iff,
}
use sidewisp_plugin.Delivery.Spool.{Tables, Sqlite, Spool, Clock, Result, ok}
use sidewisp_plugin.Delivery.Spool.Quarantine.{
  is_foreign, is_foreign_pending, foreign_items, is_archived, save_items, without_foreign,
  has_foreign, quarantine_other_installations,
}
use sidewisp_plugin.Delivery.Spool.Archive.{save_items_saves}

without_foreign_isolates :
    (active : String) (t : Tables) → has_foreign active (without_foreign active t) ≡ false
unfolding has_foreign without_foreign
without_foreign_isolates active t = ground (
  arith,
  any-filter-not (is_foreign active) t.events,
  any-filter-not (is_foreign_pending active) t.diagnostics,
  any-filter-not (is_foreign_pending active) t.usage,
)

no_foreign_items :
    (active : String) (t : Tables) → has_foreign active t ≡ false → foreign_items active t ≡ []
unfolding has_foreign foreign_items
no_foreign_items active t h = ground (
  arith,
  filter_none (is_foreign active) t.events,
  filter_none (is_foreign_pending active) t.diagnostics,
  filter_none (is_foreign_pending active) t.usage,
)

-- What the quarantine of a spool for one installation achieves.
pub record IsIsolated (active : String) (s s' : Spool) (r : Result ℕ) : Type 0 where
  pub live : has_foreign active s'.tables ≡ false
  pub saved : All (λ x. is_archived x s'.archive ≡ true) (foreign_items active s.tables)
  pub counted : r ≡ ok (length (foreign_items active s.tables))

archive-quarantine :
    (db : Sqlite) (clock : Clock) (active : String) (s : Spool)
    → active ≢ ""
    → has_foreign active s.tables ≡ true
    → (quarantine_other_installations db clock active s).0.archive
      ≡ save_items clock 0 (foreign_items active s.tables) s.archive
unfolding quarantine_other_installations
archive-quarantine db clock active s named foreign = ground (arith, eq_iff active "")

-- For any installation id that is not empty, no row of another installation is left in the three
-- live tables, each that was there is in the archive, and their number is returned.
pub quarantine-IsIsolated :
    (db : Sqlite) (clock : Clock) (active : String) (s : Spool)
    → active ≢ ""
    → let (s', r) = quarantine_other_installations db clock active s in IsIsolated active s s' r
unfolding quarantine_other_installations
quarantine-IsIsolated db clock active s named = elim (Bool-cases (has_foreign active s.tables)) [
  | inl foreign ↦ record {
    live = ground (arith, without_foreign_isolates active s.tables, eq_iff active "");
    saved =
        rw (archive-quarantine db clock active s named foreign)
          (save_items_saves clock 0 (foreign_items active s.tables) s.archive);
    counted = ground (arith, eq_iff active "");
  }
  | inr own ↦ record {
    live = ground (arith, eq_iff active "");
    saved = rw (no_foreign_items active s.tables own) tt;
    counted = ground (arith, eq_iff active "", no_foreign_items active s.tables own);
  }
]

-- A second quarantine for the same installation finds nothing and changes nothing.
pub quarantine_twice :
    (db : Sqlite) (clock later : Clock) (active : String) (s : Spool)
    → active ≢ ""
    → let (s', r) = quarantine_other_installations db clock active s in
      quarantine_other_installations db later active s' ≡ (s', ok 0)
unfolding quarantine_other_installations
quarantine_twice db clock later active s named =
    let (s', r) = quarantine_other_installations db clock active s in
    let found = quarantine-IsIsolated db clock active s named in
    ground (arith, found.live, eq_iff active "")
