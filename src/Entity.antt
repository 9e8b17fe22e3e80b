-- ===== src/Entity.antt =====
-- src/internal/entity: the data that the components pass to one another, and the errors.
-- Byte counts are Go `int`s, so 64-bit patterns; row ids are numbers.
use aggregator_demo.Base.{ℕ, Bool, List, [], ◌||◌, ◌==◌, text_eq}
use aggregator_demo.Base.Word.{Int64, add64}
use aggregator_demo.Base.Text.{Text, codes}

-- The errors that the code compares or returns. `other` is an error of the database, the file
-- system or the context, which the code only passes on.
pub data Error : Type 0 where
  no_data internal_error : Error
  undefined_ip_format traffic_byte_parse : Error
  active_transaction not_init closed : Error
  no_rows : Error
  other : ℕ → Error

-- `channel.ID`
abbrev pub internal : ℕ
internal = 1

abbrev pub external : ℕ
external = 2

pub record Channel : Type 0 where
  pub id : ℕ
  pub enabled : Bool
  pub descr : Text

-- `net.IP` is a slice of bytes.
abbrev pub Ip : Type 0
Ip = List ℕ

pub record FlowRecord : Type 0 where
  pub src_ip : Ip
  pub dst_ip : Ip
  pub byte_size : Int64

-- A flow file with its directory; the source does not use it.
pub record Flow : Type 0 where
  pub nas_ip : Text
  pub output : Text

unfoldable pub is_empty : Flow → Bool
is_empty f = f.nas_ip == [] || f.output == []

abbrev pub new_flow : Text → Text → Flow
new_flow nas_ip output = record { nas_ip = nas_ip; output = output }

-- `Record.Empty`
abbrev pub empty : FlowRecord → FlowRecord
empty r = record { src_ip = []; dst_ip = []; byte_size = 0 }

abbrev pub flow_name_sub_str : Text
flow_name_sub_str = codes "ft-"

abbrev pub flow_header : Text
flow_header = codes "#:doctets,srcaddr,dstaddr"

abbrev pub git_keep_name : Text
git_keep_name = codes ".gitkeep"

pub record OnlineSession : Type 0 where
  pub sess_id : ℕ
  pub ip : Text
  pub nas_ip : Text

pub record Chunk : Type 0 where
  pub sess_id : ℕ
  pub channel_id : ℕ
  pub download : Int64
  pub upload : Int64

abbrev pub new_chunk : ℕ → ℕ → Int64 → Int64 → Chunk
new_chunk sess_id channel_id download upload = record {
  sess_id = sess_id;
  channel_id = channel_id;
  download = download;
  upload = upload;
}

pub record Traffic : Type 0 where
  pub download : Int64
  pub upload : Int64

abbrev pub new_empty_traffic : Traffic
new_empty_traffic = record { download = 0; upload = 0 }

abbrev pub new_traffic_download : Int64 → Traffic
new_traffic_download byte_size = record { download = byte_size; upload = 0 }

abbrev pub new_traffic_upload : Int64 → Traffic
new_traffic_upload byte_size = record { download = 0; upload = byte_size }

-- `t.Merge(t1)`
abbrev pub merge : Traffic → Traffic → Traffic
merge t t1 = record { download = add64 t.download t1.download; upload = add64 t.upload t1.upload }

-- The two results `(value, err)` of a function that returns no value beside an error.
pub data Result {ℓ} (A : Type ℓ) : Type ℓ where
  ok : A → Result A
  err : Error → Result A

-- A call returns, or panics.
pub data Outcome {ℓ} (A : Type ℓ) : Type ℓ where
  done : A → Outcome A
  panic : Outcome A
