-- ===== src/Flowgen.antt =====
-- src/tools/flowgen: flow files for development. The random numbers and the printed random addresses are
-- an argument, and so are the time in the name of the file and what the file system answers.
pub mod Counted
pub mod Totals
pub mod Lines
pub mod Saved
use aggregator_demo.Base.{
  ℕ, zero, suc, ◌+◌, ◌%◌, Bool, true, false, Option, none, some, List, [], ◌∷◌, ◌++◌, ◌==◌, nat_eq,
}
use aggregator_demo.Base.Text.{Text, codes}
use aggregator_demo.Base.Strconv.Decimal.{itoa}
use aggregator_demo.Entity.{Error}

abbrev pub record_count : ℕ
record_count = 100

abbrev pub max_byte_size : ℕ
max_byte_size = 10000

pub record Params : Type 0 where
  pub nas_ip : Text
  pub client_ip : Text
  pub flow_dir : Text

-- What is drawn for one record: an address, and a number below `max_byte_size`.
pub record Draw : Type 0 where
  pub address : Text
  pub number : ℕ

abbrev pub bytes_transfered : Draw → ℕ
bytes_transfered d = d.number + 1

-- A record of the file: the client first, or the client last.
unfoldable pub flow_line : Params → Draw → Bool → Text
unfolding itoa
flow_line p d true = itoa (bytes_transfered d) ++ b',' ∷ (p.client_ip ++ b',' ∷ d.address)
flow_line p d false = itoa (bytes_transfered d) ++ b',' ∷ (d.address ++ b',' ∷ p.client_ip)

pub record Generated : Type 0 where
  pub download : ℕ
  pub upload : ℕ
  pub flow_bytes : Text

abbrev pub is_even : ℕ → Bool
is_even i = i % 2 == 0

-- One round of the loop, by the parity of the index.
unfoldable pub with_record : Params → Draw → Bool → Generated → Generated
unfolding flow_line
with_record p d true g = record {
  download = g.download + bytes_transfered d;
  upload = g.upload;
  flow_bytes = g.flow_bytes ++ (flow_line p d true ++ b'\n' ∷ []);
}
with_record p d false g = record {
  download = g.download;
  upload = g.upload + bytes_transfered d;
  flow_bytes = g.flow_bytes ++ (flow_line p d false ++ b'\n' ∷ []);
}

abbrev pub header : Generated
header = record {
  download = 0;
  upload = 0;
  flow_bytes = codes "#:doctets,srcaddr,dstaddr" ++ b'\n' ∷ [];
}

module _ (p : Params) (draws : ℕ → Draw) where
  -- `k` rounds from the index `i` on.
  unfoldable pub records : ℕ → ℕ → Generated → Generated
  unfolding with_record
  records zero i g = g
  records (suc k) i g = records k (suc i) (with_record p (draws i) (is_even i) g)

  -- `Generate`: the totals, the bytes that are to be written, and the error. `mkdir` and `write` are
  -- what the file system answers; the totals are returned with the error of a failed write, too.
  unfoldable pub generate : Option Error → Option Error → Generated × Option Error
  unfolding records
  generate (some e) write = (record { download = 0; upload = 0; flow_bytes = [] }, some e)
  generate none write = (records record_count 0 header, write)
