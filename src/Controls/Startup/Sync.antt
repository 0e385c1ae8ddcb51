-- ===== src/Controls/Startup/Sync.antt =====
-- server/device-ops.c and server/sync.c: the sync status after the start-up.
use fcp_support.Base.{ℕ, ◌<◌, [], true, Option, some, Res, ok, ◌≡◌, refl, sym, ap, ◌∙◌, lt→ltb, Hw}
use fcp_support.Fcp.Misc.{cap_read}
use fcp_support.Device.{Device, on_dev, init_control_manager}
use fcp_support.Device.Add.{add_user_control, find_control, find_from}
use fcp_support.Device.Steps.{add_user_control-Respects}
use fcp_support.Device.Change.{Handled}
use fcp_support.Device.Table.{add_control-find_control, insert_absent}
use fcp_support.Control.{Props, no_func, sync_control}
use fcp_support.Controls.Mixer.{add_sync_control, sync_props}
use fcp_support.Controls.Router.Route.{SameRoute, SameRoute-IsAllowed}
use fcp_support.Controls.Kept.{IsKept}
use fcp_support.Controls.Kept.Optional.{same_table-IsKept}
use fcp_support.Controls.Startup.{
  Startup, device_init_controls, init_optional, configured, emptied, required, optional, keep_dev,
  category_init, category_data, category_sync, remove_all_user_controls,
}
use fcp_support.Controls.Startup.Room.{
  some-KeepsSome, later_optional, later_optional-KeepsSome, configured-Keeps,
}

module _ {D : Type 0} (startup : Startup D) where
  abbrev cap : ℕ → Hw D ℕ
  cap = cap_read (startup.sources.ioctl)

  -- A device in which only the driver and ALSA differ.
  abbrev with_dev : Device D → D → Device D
  with_dev x d = keep_dev startup x (record (x.backend) { dev = d })

  required-supported :
      (category n : ℕ) (d : D) (x : Device D) (f : Device D → Handled D)
      → cap category x.backend.dev ≡ (ok n, d)
      → 0 < n
      → required startup category x f ≡ f (with_dev x d)
  unfolding on_dev
  required-supported category n d x f e l = rw (e, lt→ltb 0 n l)

  optional-supported :
      (category n : ℕ) (d : D) (x : Device D) (f : Device D → Option (Device D))
      → cap category x.backend.dev ≡ (ok n, d)
      → 0 < n
      → optional startup category f x ≡ f (with_dev x d)
  unfolding on_dev
  optional-supported category n d x f e l = rw (e, lt→ltb 0 n l)

  -- The control of the sync status, as the table has it.
  pub record IsSync (p : Props) : Type 0 where
    pub reads : p.read_func ≡ sync_control
    pub writes : p.write_func ≡ no_func
    pub read_only : p.read_only ≡ true
    pub values : p.enum_count ≡ 2

  added_sync : Device D → Props
  added_sync x =
      (add_user_control (startup.sources.ioctl) (startup.sources.alsa) (sync_props, x.backend)).1.0

  added_sync-IsSync : (x : Device D) → IsSync (added_sync x)
  unfolding added_sync
  added_sync-IsSync x =
      let route =
        add_user_control-Respects (startup.sources.ioctl) (startup.sources.alsa) SameRoute
          (SameRoute-IsAllowed (startup.sources.ioctl)) (sync_props, x.backend) in
      record {
        reads = route.read_func;
        writes = route.write_func;
        read_only = route.read_only;
        values = route.enum_count;
      }

  find-add_sync_control :
      (x : Device D)
      → x.controls ≡ []
      → find_control (add_sync_control (startup.sources) x) "Sync Status" ≡ some (0, added_sync x)
  unfolding add_sync_control added_sync insert_absent find_control find_from
  find-add_sync_control x e =
      add_control-find_control (startup.sources.ioctl) (startup.sources.alsa) sync_props x
        "Sync Status"
      ∙ rw e

  -- On a device that supports the categories INIT, DATA and SYNC: whenever `device_init_controls` returns,
  -- with success or with an error, and whatever the two maps and the other subsystems add, the first control
  -- is the sync status; it is found by its name, has two values, reads the sync status, and is read-only.
  pub device_init_controls-IsSync :
      (x : Device D) (i j k : ℕ) (d1 d2 d3 : D) (r : Res (Unit {0})) (y : Device D)
      → cap category_init (remove_all_user_controls startup x.backend.dev) ≡ (ok i, d1)
      → 0 < i
      → cap category_data d1 ≡ (ok j, d2)
      → 0 < j
      → cap category_sync d2 ≡ (ok k, d3)
      → 0 < k
      → device_init_controls startup x ≡ some (r, y)
      → (p : Props) × (find_control y "Sync Status" ≡ some (0, p)) × IsSync p
  unfolding device_init_controls emptied init_control_manager init_optional
  device_init_controls-IsSync x i j k d1 d2 d3 r y e1 l1 e2 l2 e3 l3 returned =
      let x0 = emptied startup x in
      let x1 = with_dev x0 d1 in
      let x2 = with_dev x1 d2 in
      let x3 = with_dev x2 d3 in
      let synced = add_sync_control (startup.sources) x3 in
      let run : device_init_controls startup x
          ≡ configured startup (later_optional startup (some synced)) =
        required-supported category_init i d1 x0
          (λ z.
            required startup category_data z (λ w. configured startup (init_optional startup w)))
          e1 l1
        ∙ required-supported category_data j d2 x1
            (λ w. configured startup (init_optional startup w)) e2 l2
        ∙ ap (λ o. configured startup (later_optional startup o))
            (optional-supported category_sync k d3 x2
              (λ w. some (add_sync_control (startup.sources) w)) e3 l3) in
      let kept : IsKept synced y =
        (configured-Keeps startup synced (later_optional startup (some synced)) (
            later_optional-KeepsSome startup synced (some synced) (
              some-KeepsSome startup synced synced
                (same_table-IsKept synced synced refl refl)))).keeps
          r y (sym run ∙ returned) in
      (
        added_sync x3,
        kept.finds "Sync Status" (0, added_sync x3) (find-add_sync_control x3 refl),
        added_sync-IsSync x3,
      )
