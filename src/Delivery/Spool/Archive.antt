-- ===== src/Delivery/Spool/Archive.antt =====
-- src/delivery/spool.js: the archive of `quarantineOtherInstallations` holds whatever was saved.
use sidewisp_plugin.Prelude.{ℕ, suc, ◌≡◌, true, List, [], ◌∷◌, ◌++◌, arith, All, eq_refl}
use sidewisp_plugin.Delivery.Spool.{
  Row, PendingRow, Item, event, diagnostic, usage_batch, Archived, Clock,
}
use sidewisp_plugin.Delivery.Spool.Quarantine.{
  same_item, same_row, same_pending, is_archived, save_item, save_items,
}

same_row_refl : (r : Row) → same_row r r ≡ true
same_row_refl r =
    ground (arith, eq_refl r.event_id, eq_refl r.payload.json, eq_refl r.source, eq_refl r.cursor)

same_pending_refl : (r : PendingRow) → same_pending r r ≡ true
same_pending_refl r =
    ground (arith, eq_refl r.installation_id, eq_refl r.item_id, eq_refl r.payload)

same_item_refl : (x : Item) → same_item x x ≡ true
unfolding same_item
same_item_refl (event r) = same_row_refl r
same_item_refl (diagnostic r) = same_pending_refl r
same_item_refl (usage_batch r) = same_pending_refl r

is_archived-append :
    (x : Item) (old more : List Archived)
    → is_archived x old ≡ true
    → is_archived x (old ++ more) ≡ true
is_archived-append x [] more h = cc
is_archived-append x (a ∷ old) more h = ground (arith, is_archived-append x old more)

is_archived_last :
    (x : Item) (old : List Archived) (now : ℕ)
    → is_archived x (old ++ record { item = x; archived_at = now } ∷ []) ≡ true
is_archived_last x [] now = ground (arith, same_item_refl x)
is_archived_last x (a ∷ old) now = ground (arith, is_archived_last x old now)

save_item_keeps :
    (now : ℕ) (x y : Item) (archive : List Archived)
    → is_archived x archive ≡ true
    → is_archived x (save_item now y archive) ≡ true
unfolding save_item
save_item_keeps now x y archive h =
    ground (arith, is_archived-append x archive (record { item = y; archived_at = now } ∷ []))

save_item_saves :
    (now : ℕ) (x : Item) (archive : List Archived) → is_archived x (save_item now x archive) ≡ true
unfolding save_item
save_item_saves now x archive = ground (arith, is_archived_last x archive now)

-- What is in the archive stays there.
pub save_items_keeps :
    (clock : Clock) (i : ℕ) (x : Item) (xs : List Item) (archive : List Archived)
    → is_archived x archive ≡ true
    → is_archived x (save_items clock i xs archive) ≡ true
unfolding save_items
save_items_keeps clock i x [] archive h = h
save_items_keeps clock i x (y ∷ ys) archive h =
    save_items_keeps clock (suc i) x ys (save_item (clock i) y archive)
      (save_item_keeps (clock i) x y archive h)

-- Every item that is handed over is in the archive afterwards.
pub save_items_saves :
    (clock : Clock) (i : ℕ) (xs : List Item) (archive : List Archived)
    → All (λ x. is_archived x (save_items clock i xs archive) ≡ true) xs
unfolding save_items
save_items_saves clock i [] archive = tt
save_items_saves clock i (x ∷ xs) archive =
    let next = save_item (clock i) x archive in
    (
      save_items_keeps clock (suc i) x xs next (save_item_saves (clock i) x archive),
      save_items_saves clock (suc i) xs next,
    )
