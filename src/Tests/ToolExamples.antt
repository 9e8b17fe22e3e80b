-- ===== src/Tests/ToolExamples.antt =====
-- The configuration, NULL values, timers and generated flow at concrete inputs.
use aggregator_demo.Flowgen.Lines.{IsShort}
use aggregator_demo.Flowgen.Saved.{with_one, generate-saved}
use aggregator_demo.Aggregator.Stages.{aggregate}
use aggregator_demo.Aggregator.Healthy.{healthy}
use aggregator_demo.Traffic.Sift.{chunks_for}
use aggregator_demo.Storage.Lookup.{is_flow_name}
use aggregator_demo.Subnetrange.{create_disabled_subnet_range, trim_space}
use aggregator_demo.Subnetrange.Networks.{
  networks, items, IsCreated, create_disabled_subnet_range-IsCreated,
}
use aggregator_demo.Flowgen.{Params, Draw, max_byte_size, generate}
use aggregator_demo.Flowgen.Counted.{IsClient, IsOutside}
use aggregator_demo.Tests.Data.{net, channels, empty_db, nas, client, other_client}
use aggregator_demo.Base.{
  ◌++◌, ℕ, ◌+◌, ◌%◌, ◌<◌, ◌*◌, ◌≡◌, refl, Bool, true, false, Option, none, some, List, [], ◌∷◌,
  text_eq, nat_eq, if◌then◌else◌, length, arith,
}
use aggregator_demo.Base.Text.{Text, codes, split, starts_with, has_infix}
use aggregator_demo.Base.Map.{lookup}
use aggregator_demo.Entity.{external, Chunk, new_chunk, Error, other, Result, ok, err}
use aggregator_demo.Config.{Config}
use aggregator_demo.Sqlnull.Laws.{IsDriver}
use aggregator_demo.Measure.Growth.{cycles, cycles-length}

abbrev config : Config
config = record {
  postgres = record { user = []; password = []; url = []; db_name = []; timezone = [] };
  pool_size = 0;
}

abbrev scan_option : Option Bool → Bool × Option Error
scan_option none = (false, none)
scan_option (some b) = (b, none)

abbrev is_none : Option Bool → Bool
is_none none = true
is_none (some b) = false

option-IsDriver : IsDriver false (λ v. v) is_none scan_option
option-IsDriver = record {
  scans = λ a. refl;
  scans_nil = refl;
  is_value = λ a. refl;
  is_null = refl;
}

cycles-length_example :
    (length (cycles false (λ n i. n + i) 2).name_list ≡ 3 * 2)
    × ((cycles true (λ n i. n + i) 2).name_list ≡ [])
cycles-length_example = cycles-length (λ n i. n + i) 2

abbrev dev_params : Params
dev_params = record {
  nas_ip = codes "10.0.0.0";
  client_ip = codes "10.0.0.1";
  flow_dir = codes "./flow";
}

abbrev dev_draws : ℕ → Draw
dev_draws i = record { address = codes "8.8.8.8"; number = i * 37 % 10000 }

dev-IsClient : IsClient net dev_params.client_ip
unfolding net starts_with nat_eq
dev-IsClient = record {
  ip = codes "10.0.0.1";
  parsed = refl;
  printed = refl;
  inside = refl;
  plain = (refl, refl, refl);
}

dev-IsOutside : IsOutside net (codes "8.8.8.8")
unfolding net starts_with nat_eq
dev-IsOutside = record {
  ip = codes "8.8.8.8";
  parsed = refl;
  outside = refl;
  plain = (refl, refl, refl);
}

dev_number : (i : ℕ) → i * 37 % 10000 < max_byte_size
dev_number i = omega arith

client-IsShort : IsShort dev_params.client_ip
unfolding nat_eq
client-IsShort = (refl, omega arith)

peer-IsShort : IsShort (codes "8.8.8.8")
unfolding nat_eq
peer-IsShort = (refl, omega arith)

dev_flow : is_flow_name (codes "ft-25.11.2026") ≡ true
unfolding has_infix starts_with nat_eq
dev_flow = refl

generate-saved_example :
    let g = (generate dev_params dev_draws none none).0 in
    let s = with_one (codes "ft-25.11.2026") g.flow_bytes empty_db in
    let r = (aggregate healthy nas (client ∷ other_client ∷ []) channels net s).0 in
    (chunks : List Chunk) × (r.db.chunk ≡ empty_db.chunk ++ chunks)
    × (chunks_for client.sess_id external chunks
        ≡ new_chunk client.sess_id external g.download g.upload ∷ [])
unfolding lookup nat_eq
generate-saved_example =
    generate-saved net dev_params dev-IsClient dev_draws (λ i. dev-IsOutside) dev_number
      client-IsShort (λ i. peer-IsShort) nas (codes "ft-25.11.2026") empty_db client
      (other_client ∷ []) channels dev_flow refl refl ((λ h. omega (arith, h)), tt)
      (refl, (refl, tt)) refl

-- A network is its text, which has a slash, and a ranger is the list of its networks.
abbrev slash_network : Text → Result Text
slash_network t = if has_infix t (codes "/") then ok t else err (other 1)

abbrev subnet_file : Text
subnet_file = codes "192.168.1.0/24\n\n   \n 10.0.0.0/8\r\n"

create_disabled_subnet_range-IsCreated_example :
    IsCreated slash_network
      (λ network r. (r ++ network ∷ [], none))
      (λ r network. r ++ network ∷ [])
      (λ network r. refl)
      []
      (create_disabled_subnet_range slash_network
        (λ network r. (r ++ network ∷ [], none))
        []
        (ok subnet_file))
      (networks slash_network (items (split b'\n' subnet_file)))
create_disabled_subnet_range-IsCreated_example =
    create_disabled_subnet_range-IsCreated slash_network (λ network r. (r ++ network ∷ [], none))
      (λ r network. r ++ network ∷ []) (λ network r. refl) [] subnet_file

-- The blank lines are passed over, and the white space is taken off.
subnet_networks :
    networks slash_network (items (split b'\n' subnet_file))
    ≡ ok (codes "192.168.1.0/24" ∷ codes "10.0.0.0/8" ∷ [])
unfolding networks split trim_space nat_eq text_eq has_infix starts_with
subnet_networks = refl

-- A no-break space and a blank in front, and a thin space behind.
wide_trimmed :
    trim_space (194 ∷ 160 ∷ b' ' ∷ b'a' ∷ b' ' ∷ b'b' ∷ 226 ∷ 128 ∷ 137 ∷ []) ≡ codes "a b"
unfolding trim_space nat_eq
wide_trimmed = refl
