-- ===== src/Machine/Steps.antt =====
-- What one step of a worker does to its directory, the checkpoint, the chunks and the saves.
use mathlib.Core.Path.{subst}
use aggregator_demo.Base.{
  ◌≡◌, ◌≢◌, refl, sym, inl, inr, true, false, none, some, List, [], ◌∷◌, arith, text_eq, All,
  Bool-cases, contains,
}
use aggregator_demo.Base.Text.{Text}
use aggregator_demo.Entity.{no_data, no_rows, OnlineSession, Chunk}
use aggregator_demo.Traffic.{Net, ChannelMap, new_flow_accumulator, accumulate_line}
use aggregator_demo.Database.{BatchRow, batch_row, row_eq, Db, apply}
use aggregator_demo.Storage.{NasDir, remove_old}
use aggregator_demo.Storage.Lookup.{tmp_has, is_flow_name}
use aggregator_demo.Storage.Stream.{remove_old-Cleaned}
use aggregator_demo.Flow.{prepare_and_stream}
use aggregator_demo.Flow.Moves.{prepare_and_stream-keeps, prepare_and_stream-names}
use aggregator_demo.Aggregator.Save.{
  Env, load_names, save_chunk_list_with_checkpoint, remove_checkpoint,
}
use aggregator_demo.Flow.Complete.{prepare_and_stream-IsComplete}
use aggregator_demo.Aggregator.Atomic.{saved, save-AllOrNothing}
use aggregator_demo.Aggregator.Once.{Guarded, Guarded-save, Guarded-remove_checkpoint}
use aggregator_demo.Aggregator.Steady.{Guarded-Moved, IsGuarded-Cleaned}
use aggregator_demo.Machine.{
  Point, start, loaded, saving, cleaning, cleaned, stopped, Local, unread, advance_at,
}
use aggregator_demo.Machine.Applied.{save_applied, save-db, remove-db}
use aggregator_demo.Machine.Rows.{
  SameElsewhere, saved-SameElsewhere, saved-inserted, apply_all-inserted, delete_rows-SameElsewhere,
}
use aggregator_demo.Aggregator.Loaded.{load_names-IsCheckpoint}
use aggregator_demo.Machine.Interleaved.{Save, with_save}
use aggregator_demo.Machine.Reading.{stream-IsReadFrom}
use aggregator_demo.Storage.Complete.{tmp_file}
use aggregator_demo.Machine.Books.{Books, Books-delete, Books-saved}
use aggregator_demo.Machine.Fits.{
  Fits, IsCounted, has_new_file-none, Fits-load_point, Fits-commit_point, Fits-clean_point,
  contains-unread, stream_point-holds,
}

All-contains :
    (P : Text → Type 0) (names : List Text) (f : Text) → All P names → contains names f ≡ true → P f
All-contains P [] f h k = absurd (cc k)
All-contains P (g ∷ names) f h k = elim (text_eq.dec f g) [
  | yes p ↦ subst P (sym p) h.0
  | no p ↦ All-contains P names f h.1 (ground arith)
]

-- What a step of the worker gives for its directory, its point and the database; the rows of the
-- other directories are as they were.
pub record IsStepOf (others : Text → NasDir) (nas_ip : Text) (db : Db) (l : Local)
    (saves : List Save) : Type 0 where
  pub guarded : Guarded others nas_ip l.dir l.db
  pub fits : Fits nas_ip l.db l.dir l.point
  pub books : Books l.db saves
  pub elsewhere : SameElsewhere nas_ip db l.db
  pub grows : (r : BatchRow) → contains db.inserted r ≡ true → contains l.db.inserted r ≡ true

module _ (others : Text → NasDir) (nas_ip : Text) (e : Env) (d : NasDir) (db : Db)
    (saves : List Save) (g : Guarded others nas_ip d db) (b : Books db saves) where
  -- A file that was read has no row in the log: it is in `tmp` and has none in the checkpoint.
  new-fresh :
      (fresh names : List Text) (chunks : List Chunk)
      → Fits nas_ip db d (saving fresh names chunks)
      → (f : Text) → contains fresh f ≡ true
      → contains db.inserted (batch_row nas_ip f) ≡ false
  new-fresh fresh names chunks h f k =
      let q =
        All-contains (λ x. (tmp_has x d ≡ true) × (is_flow_name x ≡ true)) names f h.in_tmp
          (h.among f k) in
      ground (arith, g.own.marked f q.1 q.0, h.split f (h.among f k))

  advance-saving :
      (fresh names : List Text) (chunks : List Chunk)
      → Fits nas_ip db d (saving fresh names chunks)
      → let r = save_chunk_list_with_checkpoint e nas_ip chunks names db in
        Books r.0 (with_save e nas_ip d.tmp (saving fresh names chunks) saves)
        × SameElsewhere nas_ip db r.0
        × ((x : BatchRow) → contains db.inserted x ≡ true → contains r.0.inserted x ≡ true)
  unfolding with_save
  advance-saving fresh names chunks h = elim (Bool-cases (save_applied e nas_ip chunks names)) [
    | inl k ↦
        rw (save-db e nas_ip chunks names db, k)
          (
            Books-saved e nas_ip fresh names chunks db saves d.tmp b h.among h.split
                (new-fresh fresh names chunks h) h.read,
            saved-SameElsewhere nas_ip chunks names db,
            apply_all-inserted (saved e nas_ip chunks names) db,
          )
    | inr k ↦ rw (save-db e nas_ip chunks names db, k) (b, λ j p f. refl, λ x k. k)
  ]

  -- Behind a save without an error every flow file of `tmp` has its row in the log.
  saved-IsCounted :
      (fresh names : List Text) (chunks : List Chunk)
      → Fits nas_ip db d (saving fresh names chunks)
      → let r = save_chunk_list_with_checkpoint e nas_ip chunks names db in
        r.1 ≡ none → IsCounted nas_ip r.0 d
  saved-IsCounted fresh names chunks h p f k q =
      rw ((save-AllOrNothing e nas_ip chunks names db).1 p)
        (saved-inserted nas_ip chunks names db f b.kept (h.complete f k q))

  advance-cleaned :
      Books (remove_checkpoint e nas_ip db) saves
      × SameElsewhere nas_ip db (remove_checkpoint e nas_ip db)
      × ((x : BatchRow)
          → contains db.inserted x ≡ true
          → contains (remove_checkpoint e nas_ip db).inserted x ≡ true)
  advance-cleaned = elim (remove-db e nas_ip db) [
    | inl k ↦ rw k (b, λ j p f. refl, λ x k. k)
    | inr k ↦ rw k (
      Books-delete db saves nas_ip b,
      delete_rows-SameElsewhere nas_ip db,
      λ x p. unfold apply in p,
    )
  ]

module _ (others : Text → NasDir) (nas_ip : Text) (e : Env) (sessions : List OnlineSession)
    (channel_map : ChannelMap) (n : Net) (rows : e.select_names ≢ some no_rows)
    (answers : e.select_names ≢ some no_data) where
  -- Each step of a worker keeps its directory, the saves and the rows of the others in order.
  pub advance_at-IsStepOf :
      (p : Point) (d : NasDir) (db : Db) (saves : List Save)
      → Guarded others nas_ip d db
      → Fits nas_ip db d p
      → Books db saves
      → IsStepOf others nas_ip db
          (advance_at e nas_ip sessions channel_map n p d db)
          (with_save e nas_ip d.tmp p saves)
  unfolding advance_at with_save
  advance_at-IsStepOf start d db saves g h b = record {
    guarded = g;
    fits =
        Fits-load_point nas_ip (load_names e nas_ip db) d db
          (load_names-IsCheckpoint nas_ip e db rows answers);
    books = b;
    elsewhere = λ j p f. refl;
    grows = λ r k. k;
  }
  advance_at-IsStepOf (loaded committed) d db saves g h b =
      let from = new_flow_accumulator channel_map in
      let r = prepare_and_stream e.files (accumulate_line n) committed from d in
      record {
        guarded =
            prepare_and_stream-keeps e.files (accumulate_line n) (λ x. Guarded others nas_ip x db)
              (Guarded-Moved others nas_ip db) committed from d g;
        fits =
            stream_point-holds (Fits nas_ip db r.0) tt tt e nas_ip sessions channel_map committed
              r.1 r.1.error
              (λ p k f q t. b.kept (batch_row nas_ip f) (
                cc (
                  h f,
                  has_new_file-none committed r.1.names f k (
                      prepare_and_stream-IsComplete e.files (accumulate_line n) f q committed from d
                        t p),
                )))
              (λ p chunks q.
                let in_tmp =
                  prepare_and_stream-names e.files (accumulate_line n) committed from d in
                let complete =
                  λ (f : Text) (flow : is_flow_name f ≡ true) (t : tmp_file f r.0 ≡ true).
                    prepare_and_stream-IsComplete e.files (accumulate_line n) f flow committed from
                      d t p in
                record {
                  in_tmp = in_tmp;
                  among = λ f k. ground (arith, contains-unread committed r.1.names f);
                  split = λ f k. ground (arith, contains-unread committed r.1.names f, h f);
                  complete = complete;
                  read =
                      stream-IsReadFrom e.files n channel_map sessions committed
                        (unread committed r.1.names) chunks d p
                        (λ f k.
                          All-contains (λ x. (tmp_has x r.0 ≡ true) × (is_flow_name x ≡ true))
                            r.1.names f in_tmp
                            (ground (arith, contains-unread committed r.1.names f)))
                        (λ f flow t. cc (contains-unread committed r.1.names f, complete f flow t))
                        q;
                });
        books = b;
        elsewhere = λ j p f. refl;
        grows = λ r k. k;
      }
  advance_at-IsStepOf (saving fresh names chunks) d db saves g h b =
      let r = save_chunk_list_with_checkpoint e nas_ip chunks names db in
      let s = advance-saving others nas_ip e d db saves g b fresh names chunks h in
      record {
        guarded = Guarded-save others nas_ip d e chunks names db h.in_tmp g;
        fits =
            Fits-commit_point nas_ip r.1 d r.0
              (λ p. saved-IsCounted others nas_ip e d db saves g b fresh names chunks h p);
        books = s.0;
        elsewhere = s.1;
        grows = s.2;
      }
  advance_at-IsStepOf (cleaning reason) d db saves g h b =
      let c = remove_old-Cleaned e.files d in
      record {
        guarded = record {
          own = IsGuarded-Cleaned others nas_ip db d (remove_old e.files d) c g.own;
          rest = g.rest;
          once = g.once;
        };
        fits = Fits-clean_point nas_ip (remove_old e.files d).1 (remove_old e.files d).0 db c.empty;
        books = b;
        elsewhere = λ j p f. refl;
        grows = λ r k. k;
      }
  advance_at-IsStepOf cleaned d db saves g h b =
      let s = advance-cleaned others nas_ip e d db saves g b in
      record {
        guarded = Guarded-remove_checkpoint others nas_ip d e db h g;
        fits = tt;
        books = s.0;
        elsewhere = s.1;
        grows = s.2;
      }
  advance_at-IsStepOf stopped d db saves g h b = record {
    guarded = g;
    fits = tt;
    books = b;
    elsewhere = λ j p f. refl;
    grows = λ r k. k;
  }
