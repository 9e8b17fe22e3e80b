-- ===== src/Storage/Lookup.antt =====
-- Which names a directory has after each operation of the file repository.
use aggregator_demo.Base.{
  ◌≡◌, refl, Bool, true, false, ◌||◌, Option, none, some, [], ◌∷◌, arith, ◌==◌, text_eq,
  if◌then◌else◌,
}
use aggregator_demo.Base.Text.{Text, has_infix}
use aggregator_demo.Base.Map.{lookup, erase, has, lookup-erase}
use aggregator_demo.Entity.{Error, flow_name_sub_str}
use aggregator_demo.Storage.Sorted.{IsSorted, IsSorted-erase}
use aggregator_demo.Storage.{
  Node, file, directory, Dir, NasDir, Faults, place, move_flow_to_temp_dir, rename_node,
  rename_into, make_tmp, after_mkdir,
}

-- The name is in `tmp`.
abbrev pub tmp_has : Text → NasDir → Bool
tmp_has name d = elim d.tmp [ none ↦ false | some t ↦ has name t ]

abbrev pub is_flow_name : Text → Bool
is_flow_name name = has_infix name flow_name_sub_str

-- The name is in the directory or in `tmp`.
abbrev pub holds : Text → NasDir → Bool
holds name d = tmp_has name d || has name d.entries

abbrev tmp_or_empty : NasDir → Dir
tmp_or_empty d = elim d.tmp [ none ↦ [] | some t ↦ t ]

lookup-nil : (j : Text) → lookup {V = Node} j [] ≡ none
unfolding lookup
lookup-nil j = refl

pub lookup-place :
    (j k : Text) (v : Node) (d : Dir)
    → lookup j (place k v d) ≡ (if j == k then some v else lookup j d)
unfolding lookup place
lookup-place j k v [] = refl
lookup-place j k v (_ ∷ d) = ground (arith, lookup-place j k v d)

-- Names only move from the directory to `tmp`; one that enters `tmp` leaves the directory; and none is
-- lost; and a sorted directory stays sorted.
pub record Moved (d d' : NasDir) : Type 0 where
  pub left : (j : Text) → has j d'.entries ≡ true → has j d.entries ≡ true
  pub entered : (j : Text) → tmp_has j d' ≡ true → holds j d ≡ true
  pub gone : (j : Text) → tmp_has j d ≡ false → tmp_has j d' ≡ true → has j d'.entries ≡ false
  pub held : (j : Text) → holds j d ≡ true → holds j d' ≡ true
  pub sorted : IsSorted d.entries → IsSorted d'.entries

pub Moved-refl : (d : NasDir) → Moved d d
Moved-refl d = record {
  left = λ j h. h;
  entered = λ j h. ground arith;
  gone = λ j h k. cc;
  held = λ j h. h;
  sorted = λ h. h;
}

module _ (name : Text) where
  Moved-placed :
      (d : NasDir) (t : Dir) (node : Node)
      → tmp_or_empty d ≡ t
      → lookup name d.entries ≡ some node
      → Moved d (record { entries = erase name d.entries; tmp = some (place name node t) })
  Moved-placed d t node e found = record {
    left = λ j h. ground (arith, lookup-erase j name d.entries);
    entered = λ j h. ground (arith, lookup-place j name node t, lookup-nil j);
    gone = λ j h k.
        ground (arith, lookup-place j name node t, lookup-erase j name d.entries, lookup-nil j);
    held = λ j h.
        ground (arith, lookup-place j name node t, lookup-erase j name d.entries, lookup-nil j);
    sorted = IsSorted-erase name d.entries;
  }

  Moved-rename_node :
      (d : NasDir) (t : Dir) (o p : Option Node)
      → lookup name d.entries ≡ o
      → tmp_or_empty d ≡ t
      → Moved d (record { entries = d.entries; tmp = some t })
      → Moved d (rename_node (record { entries = d.entries; tmp = some t }) name t o p).0
  unfolding rename_node
  Moved-rename_node d t none p e k m = m
  Moved-rename_node d t (some node) (some directory) e k m = m
  Moved-rename_node d t (some node) (some (file bytes)) e k m = Moved-placed d t node k e
  Moved-rename_node d t (some node) none e k m = Moved-placed d t node k e

  Moved-rename_into :
      (fault : Option Error) (d : NasDir) (t : Dir)
      → tmp_or_empty d ≡ t
      → Moved d (record { entries = d.entries; tmp = some t })
      → Moved d (rename_into fault (record { entries = d.entries; tmp = some t }) name (some t)).0
  unfolding rename_into
  Moved-rename_into (some e) d t k m = m
  Moved-rename_into none d t k m =
      Moved-rename_node d t (lookup name d.entries) (lookup name t) refl k m

  Moved-after_mkdir :
      (f : Faults) (mkdir : Option Error) (entries : Dir) (tmp : Option Dir)
      → Moved
          (record { entries = entries; tmp = tmp })
          (after_mkdir f name (make_tmp mkdir entries tmp)).0
  unfolding make_tmp after_mkdir
  Moved-after_mkdir f mkdir entries (some t) =
      Moved-rename_into (f.rename name) (record { entries = entries; tmp = some t }) t refl
        (Moved-refl _)
  Moved-after_mkdir f none entries none =
      Moved-rename_into (f.rename name) (record { entries = entries; tmp = none }) [] refl
        (record {
          left = λ j h. h;
          entered = λ j h. ground (arith, lookup-nil j);
          gone = λ j h k. ground (arith, lookup-nil j);
          held = λ j h. ground arith;
          sorted = λ h. h;
        })
  Moved-after_mkdir f (some e) entries none = Moved-refl _

  -- Whether or not the move fails: no name enters the directory, each name in `tmp` was in `tmp`
  -- or in the directory, a name that enters `tmp` leaves the directory, and a name that was in the
  -- directory or in `tmp` is still in one of them.
  pub Moved-move_flow_to_temp_dir :
      (f : Faults) (d : NasDir) → Moved d (move_flow_to_temp_dir f name d).0
  unfolding move_flow_to_temp_dir
  Moved-move_flow_to_temp_dir f d = Moved-after_mkdir f f.mkdir d.entries d.tmp
