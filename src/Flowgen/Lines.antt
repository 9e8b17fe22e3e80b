-- ===== src/Flowgen/Lines.antt =====
-- The lines that a scanner yields of a generated file.
use aggregator_demo.Base.{
  ℕ, zero, suc, ◌<◌, ◌≤◌, ◌≡◌, refl, ap, Bool, true, false, none, some, List, [], ◌∷◌, ◌++◌, arith,
  nat_eq, text_eq, contains, contains-append, length, length-append, All, leb, if◌then◌else◌,
}
use aggregator_demo.Base.Text.{Text, split, has_infix, starts_with}
use aggregator_demo.Base.Strconv.Decimal.{itoa, itoa-absent, length-itoa}
use aggregator_demo.Entity.{flow_header}
use aggregator_demo.Traffic.{Net}
use aggregator_demo.Traffic.Credit.{credits, line_credits, line_record, row_record, credited}
use aggregator_demo.Storage.Scan.{max_token_size, drop_cr, yielded, Scanned, ends, line, too_long}
use aggregator_demo.Storage.Lines.{lines_of}
use aggregator_demo.Storage.Ready.{scan_error}
use aggregator_demo.Flowgen.{Params, Draw, bytes_transfered, flow_line, is_even}
use aggregator_demo.Flowgen.Totals.{lines}

-- A text that is no part of a carriage return, and is far below the size of the scanner's buffer.
abbrev pub IsShort : Text → Type 0
IsShort t = (contains t b'\r' ≡ false) × (length t ≤ 1000)

abbrev IsLine : Text → Type 0
IsLine t = (contains t b'\r' ≡ false) × (length t < max_token_size)

drop_cr-absent : (t : Text) → contains t b'\r' ≡ false → drop_cr t ≡ t
unfolding drop_cr
drop_cr-absent [] h = refl
drop_cr-absent (c ∷ []) h = ground arith
drop_cr-absent (c ∷ d ∷ t) h = ap (λ x. c ∷ x) (drop_cr-absent (d ∷ t) (ground arith))

-- A piece that is a line as it stands.
cut_line :
    (t : Text) (next : Scanned)
    → IsLine t
    → (if leb max_token_size (length t) then ends (some too_long) else line (drop_cr t) next)
      ≡ line t next
cut_line t next h = ground (arith, drop_cr-absent t)

module _ (n : Net) where
  nothing : line_credits n [] ≡ []
  unfolding line_credits line_record row_record credited has_infix starts_with split
  nothing = refl

  -- Pieces that are lines as they stand: only an empty piece at the end is no line.
  pub yielded-credits :
      (pieces : List Text)
      → All IsLine pieces
      → (credits n (lines_of (yielded none pieces)) ≡ credits n pieces)
        × (scan_error (yielded none pieces) ≡ none)
  unfolding credits lines_of yielded scan_error drop_cr
  yielded-credits [] h = (refl, refl)
  yielded-credits ([] ∷ []) h = (rw nothing refl, refl)
  yielded-credits ([] ∷ t ∷ rest) h =
      let (same, whole) = yielded-credits (t ∷ rest) h.1 in
      (ap (λ x. line_credits n [] ++ x) same, whole)
  yielded-credits ((c ∷ t) ∷ rest) h =
      let (same, whole) = yielded-credits rest h.1 in
      rw (cut_line (c ∷ t) (yielded none rest) h.0)
        (ap (λ x. line_credits n (c ∷ t) ++ x) same, whole)

fields-IsLine :
    (x : ℕ) (b c : Text) → IsShort b → IsShort c → IsLine (itoa x ++ b',' ∷ (b ++ b',' ∷ c))
unfolding nat_eq
fields-IsLine x b c h k = (
  ground (
    arith,
    itoa-absent x b'\r' refl,
    contains-append (itoa x) (b',' ∷ (b ++ b',' ∷ c)) b'\r',
    contains-append b (b',' ∷ c) b'\r',
  ),
  omega (
    arith,
    h.1,
    k.1,
    length-itoa x,
    length-append (itoa x) (b',' ∷ (b ++ b',' ∷ c)),
    length-append b (b',' ∷ c),
  ),
)

module _ (p : Params) (draws : ℕ → Draw) (client : IsShort p.client_ip)
    (peers : (i : ℕ) → IsShort (draws i).address) where
  flow_line-IsLine : (i : ℕ) (even : Bool) → IsLine (flow_line p (draws i) even)
  unfolding flow_line
  flow_line-IsLine i true =
      fields-IsLine (bytes_transfered (draws i)) p.client_ip (draws i).address client (peers i)
  flow_line-IsLine i false =
      fields-IsLine (bytes_transfered (draws i)) (draws i).address p.client_ip (peers i) client

  lines-AreLines : (k i : ℕ) → All IsLine (lines p draws k i)
  lines-AreLines zero i = ((refl, omega arith), tt)
  lines-AreLines (suc k) i = (flow_line-IsLine i (is_even i), lines-AreLines k (suc i))

  pub file-AreLines : (k : ℕ) → All IsLine (flow_header ∷ lines p draws k 0)
  unfolding nat_eq
  file-AreLines k = ((refl, omega arith), lines-AreLines k 0)
