-- ===== src/Archive.antt =====
-- The archive app: what users keep about events: statuses, visit records, photos, entries of their
-- own and collection items.
mod Model
mod Store
mod Status
mod Interests
mod Visits
mod Photos
mod Entries
mod Items
mod Derived
mod Tests
