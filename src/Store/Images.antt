-- ===== src/Store/Images.antt =====
-- The managed_images table of internal/store/sqlite/store.go.
use sleigh.Prelude.{
  Text, List, [], ◌∷◌, ◌++◌, ◌==◌, is_blank, text_lt, any, select, delete_where, update_where,
  order_by, if◌then◌else◌,
}
use sleigh.Errors.{ok}
use sleigh.Action.{Action}
use sleigh.Store.Schema.{Db, ManagedImageRecord}

unfoldable pub touch_image : Text → Text → List ManagedImageRecord → List ManagedImageRecord
unfolding update_where
touch_image image used_at =
    update_where (λ r. r.image == image) (λ r. record r { last_used_at = used_at })

-- INSERT … ON CONFLICT(image) DO UPDATE. `now` stands in for a blank time.
unfoldable pub record_managed_image_pull : Text → Text → Text → Action Db (Unit {0})
unfolding touch_image any
record_managed_image_pull now image used_at db =
    let used = if is_blank used_at then now else used_at in
    if is_blank image
    then (ok tt, db)
    else if any (λ r. r.image == image) db.managed_images
    then (ok tt, record db { managed_images = touch_image image used db.managed_images })
    else (
      ok tt,
      record db {
        managed_images = db.managed_images ++ record { image = image; last_used_at = used } ∷ [];
      },
    )

-- An UPDATE that may affect no row.
unfoldable pub touch_managed_image_if_tracked : Text → Text → Text → Action Db (Unit {0})
unfolding touch_image
touch_managed_image_if_tracked now image used_at db =
    let used = if is_blank used_at then now else used_at in
    if is_blank image
    then (ok tt, db)
    else (ok tt, record db { managed_images = touch_image image used db.managed_images })

unfoldable pub list_managed_images_unused_before : Text → Action Db (List ManagedImageRecord)
unfolding select order_by
list_managed_images_unused_before before db = (
  ok (
      order_by (λ a b. text_lt a.last_used_at b.last_used_at)
        (select (λ r. text_lt r.last_used_at before) db.managed_images)),
  db,
)

unfoldable pub delete_managed_image : Text → Action Db (Unit {0})
unfolding delete_where
delete_managed_image image db =
    (ok tt, record db { managed_images = delete_where (λ r. r.image == image) db.managed_images })
