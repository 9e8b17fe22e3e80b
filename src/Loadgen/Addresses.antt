-- ===== src/Loadgen/Addresses.antt =====
-- The synthetic addresses are different from each other and lie in the internal subnet.
use aggregator_demo.Base.{
  ℕ, ◌+◌, ◌/◌, ◌%◌, ◌^◌, ◌<◌, ◌≤◌, ◌≡◌, refl, sym, ap, ◌∙◌, some, List, [], ◌∷◌, ◌++◌, arith,
  nat_eq,
}
use aggregator_demo.Base.Text.{Text, codes, split}
use aggregator_demo.Base.Text.Fields.{split-absent, split-field}
use aggregator_demo.Base.Strconv.{atoi}
use aggregator_demo.Base.Strconv.Decimal.{itoa, atoi-itoa, itoa-absent}
use aggregator_demo.Loadgen.{client_ip_per_octet, max_synthetic, client_ip_by_index}

-- The four parts of an address between dots.
abbrev pub octets : Text → Text → List Text
octets a b = codes "127" ∷ codes "0" ∷ a ∷ b ∷ []

client_ip-split :
    (i : ℕ)
    → split b'.' (client_ip_by_index i)
      ≡ octets (itoa (i / client_ip_per_octet + 1)) (itoa (i % client_ip_per_octet + 1))
unfolding client_ip_by_index nat_eq
client_ip-split i =
    let a = itoa (i / client_ip_per_octet + 1) in
    let b = itoa (i % client_ip_per_octet + 1) in
    split-field b'.' (codes "127") (codes "0" ++ b'.' ∷ (a ++ b'.' ∷ b)) refl
    ∙ ap (λ x. codes "127" ∷ x)
        (split-field b'.' (codes "0") (a ++ b'.' ∷ b) refl
          ∙ ap (λ x. codes "0" ∷ x)
              (split-field b'.' a b (itoa-absent (i / client_ip_per_octet + 1) b'.' refl)
                ∙ ap (λ x. a ∷ x)
                    (split-absent b'.' b (itoa-absent (i % client_ip_per_octet + 1) b'.' refl))))

itoa-injective : (a b : ℕ) → a < 2 ^ 63 → b < 2 ^ 63 → itoa a ≡ itoa b → a ≡ b
itoa-injective a b h k p =
    let q : some a ≡ some b = sym (atoi-itoa a h) ∙ ap atoi p ∙ atoi-itoa b k in cc q

octets-injective : (a b c d : Text) → octets a b ≡ octets c d → (a ≡ c) × (b ≡ d)
octets-injective a b c d p = (cc p, cc p)

client_ip-injective :
    (i j : ℕ)
    → i < max_synthetic
    → j < max_synthetic
    → client_ip_by_index i ≡ client_ip_by_index j
    → i ≡ j
client_ip-injective i j h k p =
    let q =
      octets-injective (itoa (i / client_ip_per_octet + 1)) (itoa (i % client_ip_per_octet + 1))
        (itoa (j / client_ip_per_octet + 1)) (itoa (j % client_ip_per_octet + 1))
        (sym (client_ip-split i) ∙ ap (split b'.') p ∙ client_ip-split j) in
    let a =
      itoa-injective (i / client_ip_per_octet + 1) (j / client_ip_per_octet + 1) (omega (arith, h))
        (omega (arith, k)) q.0 in
    let b =
      itoa-injective (i % client_ip_per_octet + 1) (j % client_ip_per_octet + 1) (omega (arith, h))
        (omega (arith, k)) q.1 in
    omega (arith, a, b)

-- The address of a synthetic client is 127.0.x.y with x from 1 to 15 and y from 1 to 254: it lies in
-- the subnet 127.0.0.0/20, and differs from 127.0.0.1 and from that of every other synthetic client.
pub client_ip_by_index-fits :
    (i : ℕ)
    → i < max_synthetic
    → ((x : ℕ) × ((y : ℕ) × ((split b'.' (client_ip_by_index i) ≡ octets (itoa x) (itoa y))
            × ((1 ≤ x) × (x ≤ 15))
            × ((1 ≤ y) × (y ≤ 254)))))
      × ((j : ℕ) → j < max_synthetic → client_ip_by_index i ≡ client_ip_by_index j → i ≡ j)
client_ip_by_index-fits i h = (
  (
    i / client_ip_per_octet + 1,
    (
      i % client_ip_per_octet + 1,
      (client_ip-split i, (omega arith, omega (arith, h)), (omega arith, omega arith)),
    ),
  ),
  λ j k p. client_ip-injective i j h k p,
)
