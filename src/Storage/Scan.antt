-- ===== src/Storage/Scan.antt =====
-- `bufio.Scanner` with its default split function and buffer, as `streamFile` uses it.
use aggregator_demo.Base.{ℕ, Option, some, List, [], ◌∷◌, leb, ◌==◌, nat_eq, if◌then◌else◌, length}
use aggregator_demo.Base.Text.{Text, split}
use aggregator_demo.Entity.{Error, other}

-- What a scanner yields: lines, and at the end the error of `Err`.
pub data Scanned : Type 0 where
  ends : Option Error → Scanned
  line : Text → Scanned → Scanned

-- A line whose bytes fill the buffer of 64 KiB ends the scan with `bufio.ErrTooLong`.
abbrev pub max_token_size : ℕ
max_token_size = 65536

abbrev pub too_long : Error
too_long = other 64

unfoldable pub drop_cr : Text → Text
drop_cr [] = []
drop_cr (c ∷ []) = if c == b'\r' then [] else c ∷ []
drop_cr (c ∷ d ∷ s) = c ∷ drop_cr (d ∷ s)

-- The pieces between line feeds; the one behind the last line feed is a line if it is not empty.
unfoldable pub yielded : Option Error → List Text → Scanned
unfolding drop_cr
yielded e [] = ends e
yielded e ([] ∷ []) = ends e
yielded e (piece ∷ rest) =
    let next = yielded e rest in
    if leb max_token_size (length piece) then ends (some too_long) else line (drop_cr piece) next

-- The lines of some bytes behind which reading ends, or fails with an error.
unfoldable pub scan : Text → Option Error → Scanned
unfolding yielded drop_cr
scan bytes e = yielded e (split b'\n' bytes)
