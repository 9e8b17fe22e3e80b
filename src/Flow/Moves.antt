-- ===== src/Flow/Moves.antt =====
-- What `StreamFlow` of the usecase does to the directory, and which names it returns.
use aggregator_demo.Base.{◌≡◌, refl, Bool, true, false, Option, none, some, List, [], ◌∷◌, All}
use aggregator_demo.Base.Text.{Text, has_infix}
use aggregator_demo.Base.Map.{Map}
use aggregator_demo.Entity.{Error, no_data, flow_name_sub_str, Result, ok, err}
use aggregator_demo.Storage.{
  NasDir, Faults, read_file_names_in_flow_dir, move_flow_to_temp_dir, Streamed, stream_flow,
}
use aggregator_demo.Storage.Lookup.{tmp_has, is_flow_name, Moved, Moved-move_flow_to_temp_dir}
use aggregator_demo.Storage.Stream.{All-stream_flow}
use aggregator_demo.Flow.{
  after_move, move_named, move_files, with_error, failed, streamed, by_names, prepare_and_stream,
}

-- A property of directories that no move of a file breaks survives all moves.
module _ {κ} (G : NasDir → Type κ) (keep : (d d' : NasDir) → Moved d d' → G d → G d')
    (f : Faults) where
  after_move-keeps :
      (more : NasDir → NasDir × Option Error) (r : NasDir × Option Error)
      → ((d : NasDir) → G d → G (more d).0)
      → G r.0
      → G (after_move more r).0
  unfolding after_move
  after_move-keeps more (d, some e) k g = g
  after_move-keeps more (d, none) k g = k d g

  move_named-keeps :
      (more : NasDir → NasDir × Option Error) (name : Text) (d : NasDir) (b : Bool)
      → ((d : NasDir) → G d → G (more d).0)
      → G d
      → G (move_named more f name d b).0
  unfolding move_named
  move_named-keeps more name d true k g =
      after_move-keeps more (move_flow_to_temp_dir f name d) k
        (keep d (move_flow_to_temp_dir f name d).0 (Moved-move_flow_to_temp_dir name f d) g)
  move_named-keeps more name d false k g = k d g

  pub move_files-keeps : (names : List Text) (d : NasDir) → G d → G (move_files f names d).0
  unfolding move_files
  move_files-keeps [] d g = g
  move_files-keeps (name ∷ names) d g =
      move_named-keeps (move_files f names) name d (has_infix name flow_name_sub_str)
        (move_files-keeps names) g

module _ {ℓ} {S : Type ℓ} (f : Faults) (on_line : S → Text → S × Option Error) where
  module _ {κ} (G : NasDir → Type κ) (keep : (d d' : NasDir) → Moved d d' → G d → G d') where
    streamed-keeps :
        (skip : Map Text Bool) (s : S) (r : NasDir × Option Error)
        → G r.0
        → G (streamed f on_line skip s r).0
    unfolding streamed
    streamed-keeps skip s (d, some e) g = g
    streamed-keeps skip s (d, none) g = g

    by_names-keeps :
        (skip : Map Text Bool) (s : S) (d : NasDir) (r : Result (List Text))
        → G d
        → G (by_names f on_line skip s d r).0
    unfolding by_names
    by_names-keeps skip s d (ok names) g =
        streamed-keeps skip s (move_files f names d) (move_files-keeps G keep f names d g)
    by_names-keeps skip s d (err no_data) g = g
    by_names-keeps skip s d (err e) g = g

    pub prepare_and_stream-keeps :
        (skip : Map Text Bool) (s : S) (d : NasDir)
        → G d
        → G (prepare_and_stream f on_line skip s d).0
    unfolding prepare_and_stream
    prepare_and_stream-keeps skip s d g =
        by_names-keeps skip s d (read_file_names_in_flow_dir f d) g

  -- The names are those of flow files that are in `tmp` behind the call.
  abbrev AreInTmp : NasDir × Streamed S → Type 0
  AreInTmp r = All (λ j. (tmp_has j r.0 ≡ true) × (is_flow_name j ≡ true)) (r.1).names

  with_error-names :
      (r : Streamed S) (e : Option Error) → (with_error f on_line r e).names ≡ r.names
  unfolding with_error
  with_error-names r none = refl
  with_error-names r (some e) = refl

  streamed-AreInTmp :
      (skip : Map Text Bool) (s : S) (r : NasDir × Option Error)
      → AreInTmp (streamed f on_line skip s r)
  unfolding streamed failed
  streamed-AreInTmp skip s (d, some e) = tt
  streamed-AreInTmp skip s (d, none) =
      let r = stream_flow f on_line skip s d in
      rw (with_error-names r r.error) (
        All-stream_flow f on_line (λ j. (tmp_has j d ≡ true) × (is_flow_name j ≡ true)) skip s d
          (λ j h k. (h, k)))

  by_names-AreInTmp :
      (skip : Map Text Bool) (s : S) (d : NasDir) (r : Result (List Text))
      → AreInTmp (by_names f on_line skip s d r)
  unfolding by_names failed
  by_names-AreInTmp skip s d (ok names) = streamed-AreInTmp skip s (move_files f names d)
  by_names-AreInTmp skip s d (err no_data) = tt
  by_names-AreInTmp skip s d (err e) = tt

  -- Every name that `StreamFlow` returns is that of a flow file which is in `tmp` when it
  -- returns.
  pub prepare_and_stream-names :
      (skip : Map Text Bool) (s : S) (d : NasDir) → AreInTmp (prepare_and_stream f on_line skip s d)
  unfolding prepare_and_stream
  prepare_and_stream-names skip s d = by_names-AreInTmp skip s d (read_file_names_in_flow_dir f d)
