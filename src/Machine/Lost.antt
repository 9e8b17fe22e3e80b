-- ===== src/Machine/Lost.antt =====
-- No traffic is lost: what happened to a flow file that is gone.
use aggregator_demo.Base.{◌≡◌, ◌⊎◌, true, false, contains}
use aggregator_demo.Base.Text.{Text}
use aggregator_demo.Database.{batch_row, row_eq, Db}
use aggregator_demo.Storage.{NasDir}
use aggregator_demo.Storage.Lookup.{tmp_has}
use aggregator_demo.Storage.Complete.{tmp_file}
use aggregator_demo.Machine.{Point, no_traffic, cleaning}
use aggregator_demo.Machine.Interleaved.{Service, was_read, AreRead}
use aggregator_demo.Machine.Fits.{Fits}

-- `tmp` has an entry of that name that is no regular file.
abbrev pub IsOther : Text → NasDir → Type 0
IsOther f d = (tmp_has f d ≡ true) × (tmp_file f d ≡ false)

-- Only a removal of files loses a name.
abbrev Lost : Text → Text → Point → NasDir → Db → Type 0
Lost nas_ip f p d db =
    (contains db.inserted (batch_row nas_ip f) ≡ true) ⊎ ((p ≡ cleaning no_traffic) ⊎ IsOther f d)

module _ (w : Service) (f : Text) where
  -- What is known of a file that is gone: it was read for a save, and the chunks of the saves are the
  -- sums of the lines of their files; or its flow has no traffic to count, or it was no regular
  -- file.
  abbrev pub Fate : Text → Type 0
  Fate j =
      ((was_read w.saves j f ≡ true) × AreRead w.saves)
      ⊎ ((w.points j ≡ cleaning no_traffic) ⊎ IsOther f (w.dirs j))
