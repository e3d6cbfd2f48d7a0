-- ===== src/Archive/Items/Sync.antt =====
-- `update_collection_item` keeps the event of every item in step with its visit record.
use takulife.Common.{
  ℕ, ◌≡◌, refl, sym, subst, String, Bool, true, false, not, ◌&&◌, is_some, ◌==◌, Option, none, some,
  List, [], ◌∷◌, ◌++◌, exists, first, All, All-update, All-first, or_else, post-if, arith,
}
use takulife.Common.Int.{pos}
use takulife.Common.Exec.{
  modify, Result, ok, err, pure, Exec, ◌>>=◌, ◌>>◌, post-bind, atomic, post-atomic,
}
use takulife.Archive.Model.{
  Db, Error, integrity, Activity, VisitRecord, CollectionItem, EventName, OrganizeChange,
}
use takulife.Archive.Store.{found, activity_clash, record_activity, record_event}
use takulife.Archive.Items.{validate_collection_item_quantities, is_positive}
use takulife.Archive.Items.Update.{
  Patch, merged, checked_event, full_clean, read_item, write_item, change_item,
  update_collection_item, Changed, save_item, record_organized, organize_activity, organize_changes,
  delete_replaced, record_item_updated, record_changes, same_ℤ, is_replaced,
}
use takulife.Archive.Items.Laws.{InSync, IsRow, Checked, Fits, checked_event-Checked}

-- Every item is in step with the visit records `vs`, which are those of the state.
abbrev pub Synced : List VisitRecord → Db → Type 0
Synced vs s = (s.visits ≡ vs) × All (InSync vs) s.items

Synced-bind :
    {A B : Type 0} (vs : List VisitRecord) (m : Exec Db Error A) (f : A → Exec Db Error B) (db : Db)
    → Synced vs (m db).1
    → ((a : A) (s : Db) → Synced vs s → Synced vs (f a s).1)
    → Synced vs ((m >>= f) db).1
Synced-bind vs m f db h k =
    post-bind (λ x. Synced vs x.1) m f db (λ e s r. subst (λ x. Synced vs x.1) r h)
      (λ a s r. k a s (subst (λ x. Synced vs x.1) r h))

full_clean-state :
    (invalid : CollectionItem → Bool) (i : CollectionItem) (db : Db)
    → (full_clean invalid i db).1 ≡ db
unfolding full_clean
full_clean-state invalid i db = ground arith

validate-state : (q t : _) (db : Db) → (validate_collection_item_quantities q t db).1 ≡ db
unfolding validate_collection_item_quantities
validate-state q t db = ground arith

record_activity-Synced :
    (vs : List VisitRecord) (a : Activity) (db : Db)
    → Synced vs db
    → Synced vs (record_activity a db).1
unfolding record_activity
record_activity-Synced vs a db h =
    post-if (λ (x : Result Error (Unit {0}) × Db). Synced vs x.1)
      (exists (activity_clash a) db.activity) (err integrity, db)
      (ok tt, record db { activity = db.activity ++ a ∷ [] }) (λ taken. h) (λ free. h)

record_organized-Synced :
    (vs : List VisitRecord) (i : CollectionItem) (cs : List OrganizeChange) (now : ℕ) (db : Db)
    → Synced vs db
    → Synced vs (record_organized i cs now db).1
unfolding record_organized
record_organized-Synced vs i [] now db h = h
record_organized-Synced vs i (c ∷ cs) now db h =
    record_activity-Synced vs (organize_activity i (c ∷ cs) now) db h

write_item-Synced :
    (invalid : CollectionItem → Bool) (before item : CollectionItem) (patch : Patch) (now : ℕ)
    (vs : List VisitRecord) (db : Db)
    → Synced vs db
    → InSync vs item
    → Synced vs (write_item invalid before item patch now db).1
unfolding write_item
write_item-Synced invalid before item patch now vs db h sync =
    Synced-bind vs (full_clean invalid item)
      (λ u.
        save_item item
        >> (record_organized item (organize_changes patch before item) now
            >> pure (record { before = before; item = item })))
      db (subst (Synced vs) (sym (full_clean-state invalid item db)) h)
      (λ u s k.
        Synced-bind vs (record_organized item (organize_changes patch before item) now)
          (λ u. pure (record { before = before; item = item })) (save_item item s).1
          (record_organized-Synced vs item (organize_changes patch before item) now
            (save_item item s).1
            (
              k.0,
              All-update (InSync vs) (InSync vs) (λ (i : CollectionItem). i.id == item.id)
                  (λ i. item) s.items (λ i p e. sync) (λ i p e. p) k.1,
            ))
          (λ u t l. l))

checked_event-state :
    (before : CollectionItem) (link : Option (Option VisitRecord)) (event : Option (Option ℕ))
    (db : Db)
    → (checked_event before link event db).1 ≡ db
unfolding checked_event
checked_event-state before none event db = ground arith
checked_event-state before (some link) event db = ground arith

checks_then_write :
    (invalid : CollectionItem → Bool) (patch : Patch) (now : ℕ) (before : CollectionItem)
    (vs : List VisitRecord) (s : Db)
    → Synced vs s
    → InSync vs before
    → IsRow vs patch.visit_record
    → Synced vs
        ((checked_event before patch.visit_record patch.event >>= λ event.
            write_item invalid before (merged before patch event) patch now)
          s).1
checks_then_write invalid patch now before vs s h sync row =
    let check = checked_event before patch.visit_record patch.event in
    let state =
      subst (Synced vs) (sym (checked_event-state before patch.visit_record patch.event s)) h in
    let fits =
      checked_event-Checked before patch.visit_record patch.event s
        (subst (λ v. InSync v before) (sym h.0) sync)
        (subst (λ v. IsRow v patch.visit_record) (sym h.0) row) in
    post-bind (λ x. Synced vs x.1) check
      (λ event. write_item invalid before (merged before patch event) patch now) s
      (λ e t r. subst (λ x. Synced vs x.1) r state)
      (λ event t r.
        write_item-Synced invalid before (merged before patch event) patch now vs t
          (subst (λ x. Synced vs x.1) r state)
          (subst (λ v. Fits before patch.visit_record v event) h.0
            (subst (Checked before patch.visit_record s.visits) r fits).0))

change_item-Synced :
    (invalid : CollectionItem → Bool) (patch : Patch) (now : ℕ) (before : CollectionItem)
    (vs : List VisitRecord) (db : Db)
    → Synced vs db
    → InSync vs before
    → IsRow vs patch.visit_record
    → Synced vs (change_item invalid patch now before db).1
unfolding change_item
change_item-Synced invalid patch now before vs db h sync row =
    let q = or_else patch.quantity before.quantity in
    let t = or_else patch.tradeable_quantity before.tradeable_quantity in
    Synced-bind vs (validate_collection_item_quantities q t)
      (λ u. checked_event before patch.visit_record patch.event >>= λ event.
        write_item invalid before (merged before patch event) patch now)
      db (subst (Synced vs) (sym (validate-state q t db)) h)
      (λ u s k. checks_then_write invalid patch now before vs s k sync row)

-- The row that was read is in step.
WasRead : List VisitRecord → Result Error CollectionItem × Db → Type 0
WasRead vs (err e, s) = Synced vs s
WasRead vs (ok i, s) = Synced vs s × InSync vs i

read_row :
    (id : ℕ) (vs : List VisitRecord) (db : Db) (o : Option CollectionItem)
    → first (λ (i : CollectionItem). i.id == id) db.items ≡ o
    → Synced vs db
    → WasRead vs (found o, db)
unfolding WasRead
read_row id vs db none e h = h
read_row id vs db (some i) e h =
    (h, (All-first (InSync vs) (λ (i : CollectionItem). i.id == id) db.items i h.1 e).0)

block-Synced :
    (invalid : CollectionItem → Bool) (id : ℕ) (patch : Patch) (now : ℕ) (vs : List VisitRecord)
    (db : Db)
    → Synced vs db
    → IsRow vs patch.visit_record
    → Synced vs ((read_item id >>= change_item invalid patch now) db).1
unfolding read_item WasRead
block-Synced invalid id patch now vs db h row =
    let was = read_row id vs db (first (λ (i : CollectionItem). i.id == id) db.items) refl h in
    post-bind (λ x. Synced vs x.1) (read_item id) (change_item invalid patch now) db
      (λ e s r. subst (WasRead vs) r was)
      (λ before s r.
        let (k, sync) = subst (WasRead vs) r was in
        change_item-Synced invalid patch now before vs s k sync row)

record_changes-Synced :
    (l w t : Bool) (user id : ℕ) (vs : List VisitRecord) (db : Db)
    → Synced vs db
    → Synced vs (record_changes l w t user id db).1
unfolding record_changes record_event
record_changes-Synced true true true user id vs db h = h
record_changes-Synced true true false user id vs db h = h
record_changes-Synced true false true user id vs db h = h
record_changes-Synced true false false user id vs db h = h
record_changes-Synced false true true user id vs db h = h
record_changes-Synced false true false user id vs db h = h
record_changes-Synced false false true user id vs db h = h
record_changes-Synced false false false user id vs db h = h

abbrev with_update_event : Changed → Db → Db
unfolding record_event
with_update_event c db =
    (record_event EventName.collection_item_updated c.item.user "collection_item" c.item.id db).1

announced-Synced :
    (c : Changed) (vs : List VisitRecord) (db : Db)
    → Synced vs db
    → Synced vs (record_item_updated c db).1
unfolding record_item_updated record_event with_update_event
announced-Synced c vs db h =
    let l = is_some c.item.visit_record && not (is_some c.before.visit_record) in
    let w = c.item.is_wanted && not c.before.is_wanted in
    let t = is_positive c.item.tradeable_quantity && same_ℤ c.before.tradeable_quantity (pos 0) in
    Synced-bind vs (record_changes l w t c.item.user c.item.id) (λ u. pure c.item)
      (with_update_event c db)
      (record_changes-Synced l w t c.item.user c.item.id vs (with_update_event c db) h) (λ u s k. k)

replaced-Synced :
    (patch : Patch) (old new : Option String) (vs : List VisitRecord) (db : Db)
    → Synced vs db
    → Synced vs (delete_replaced patch old new db).1
replaced-Synced patch none new vs db h = h
replaced-Synced patch (some old) new vs db h =
    post-if (λ (m : Exec Db Error (Unit {0})). Synced vs (m db).1)
      (is_some patch.image && is_replaced (some old) new)
      (modify (λ (s : Db). record s { deleted_files = s.deleted_files ++ old ∷ [] })) (pure tt)
      (λ e. h) (λ e. h)

-- Updating an item keeps the event of every item the event of the visit record that it is linked
-- to, whatever fields the request carries; a visit record that it carries is a row of the table.
pub update_collection_item-InSync :
    (invalid : CollectionItem → Bool) (id : ℕ) (patch : Patch) (now : ℕ) (db : Db)
    → All (InSync db.visits) db.items
    → IsRow db.visits patch.visit_record
    → Synced db.visits (update_collection_item invalid id patch now db).1
unfolding update_collection_item record_item_updated record_event
update_collection_item-InSync invalid id patch now db all row =
    let vs = db.visits in
    let block = read_item id >>= change_item invalid patch now in
    Synced-bind vs (atomic block)
      (λ c. delete_replaced patch c.before.image c.item.image >> record_item_updated c) db
      (post-atomic (λ x. Synced vs x.1) block db (λ e s r. (refl, all))
        (λ c s r.
          subst (λ x. Synced vs x.1) r (block-Synced invalid id patch now vs db (refl, all) row)))
      (λ c s h.
        Synced-bind vs (delete_replaced patch c.before.image c.item.image)
          (λ u. record_item_updated c) s (replaced-Synced patch c.before.image c.item.image vs s h)
          (λ u t k. announced-Synced c vs t k))
