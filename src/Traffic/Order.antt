-- ===== src/Traffic/Order.antt =====
-- The order of the lines of flow, and of the files they stand in, does not matter.
use mathlib.Core.Logic.{∥∥₁_elim}
use mathlib.Core.List.{Perm, Permᴰ}
use aggregator_demo.Base.{
  Bool, any, ℕ, ◌≡◌, refl, ◌∙◌, ap, List, [], ◌∷◌, ◌++◌, arith, nat_eq, text_eq,
}
use aggregator_demo.Base.Word.{add64}
use aggregator_demo.Base.Text.{Text}
use aggregator_demo.Entity.{Traffic, merge}
use aggregator_demo.Traffic.{Net, ChannelMap, new_flow_accumulator}
use aggregator_demo.Traffic.Credit.{Credit, total, line_credits, credits, total-IsTraffic}
use aggregator_demo.Traffic.Verdict.{is_empty, is_empty-append, recognised, verdict}
use aggregator_demo.Traffic.Accumulate.{client_traffic, accumulate_lines, accumulate_lines-total}

Traffic-set : IsSet Traffic
Traffic-set = hlevel

module _ (ip : Text) (c : ℕ) where
  pub total-append :
      (xs ys : List Credit) → total ip c (xs ++ ys) ≡ merge (total ip c xs) (total ip c ys)
  unfolding total add64
  total-append [] ys = ground (arith, total-IsTraffic ip c ys)
  total-append (x ∷ xs) ys = ground (arith, total-append xs ys)

  total-swap :
      (n : Net) (a b : Text) (rest : List Text)
      → total ip c (credits n (a ∷ b ∷ rest)) ≡ total ip c (credits n (b ∷ a ∷ rest))
  unfolding credits add64
  total-swap n a b rest =
      let ca = line_credits n a in
      let cb = line_credits n b in
      let cr = credits n rest in
      ground (
        arith,
        total-append ca (cb ++ cr),
        total-append cb cr,
        total-append cb (ca ++ cr),
        total-append ca cr,
      )

  total-permᴰ :
      (n : Net) {l m : List Text} → Permᴰ l m → total ip c (credits n l) ≡ total ip c (credits n m)
  unfolding credits
  total-permᴰ n Permᴰ.nil = refl
  total-permᴰ n (Permᴰ.cons {a} {b} {l₁ = l} {l₂ = m} e p) = cc (
    ap (line_credits n) e,
    total-permᴰ n p,
    total-append (line_credits n a) (credits n l),
    total-append (line_credits n b) (credits n m),
  )
  total-permᴰ n (Permᴰ.swap {a} {b} {l = l} e f) = rw (← e, ← f) (total-swap n a b l)
  total-permᴰ n (Permᴰ.trans p q) = total-permᴰ n p ∙ total-permᴰ n q

  pub total-perm :
      (n : Net) {l m : List Text} → Perm l m → total ip c (credits n l) ≡ total ip c (credits n m)
  total-perm n p = ∥∥₁_elim p (Traffic-set _ _) (total-permᴰ n)

-- Lines in another order give every client the same traffic on every channel.
pub accumulate_lines-perm :
    (n : Net) (cm : ChannelMap) (l m : List Text) (ip : Text) (c : ℕ)
    → Perm l m
    → client_traffic (accumulate_lines n (new_flow_accumulator cm) l) ip c
      ≡ client_traffic (accumulate_lines n (new_flow_accumulator cm) m) ip c
accumulate_lines-perm n cm l m ip c p = ∥∥₁_elim p (Traffic-set _ _) λ d. ground (
  arith,
  total-permᴰ ip c n d,
  accumulate_lines-total n cm l ip c,
  accumulate_lines-total n cm m ip c,
)

Bool-set : IsSet Bool
Bool-set = hlevel

module _ (n : Net) where
  is_empty-permᴰ : {l m : List Text} → Permᴰ l m → is_empty (credits n l) ≡ is_empty (credits n m)
  unfolding credits
  is_empty-permᴰ Permᴰ.nil = refl
  is_empty-permᴰ (Permᴰ.cons {a} {b} {l₁ = l} {l₂ = m} e p) = cc (
    ap (line_credits n) e,
    is_empty-permᴰ p,
    is_empty-append n (line_credits n a) (credits n l),
    is_empty-append n (line_credits n b) (credits n m),
  )
  is_empty-permᴰ (Permᴰ.swap {a} {b} {l = l} e f) =
      rw (← e, ← f)
        (ground (
          arith,
          is_empty-append n (line_credits n a) (line_credits n b ++ credits n l),
          is_empty-append n (line_credits n b) (line_credits n a ++ credits n l),
          is_empty-append n (line_credits n a) (credits n l),
          is_empty-append n (line_credits n b) (credits n l),
        ))
  is_empty-permᴰ (Permᴰ.trans p q) = is_empty-permᴰ p ∙ is_empty-permᴰ q

  pub is_empty-perm : {l m : List Text} → Perm l m → is_empty (credits n l) ≡ is_empty (credits n m)
  is_empty-perm p = ∥∥₁_elim p (Bool-set _ _) is_empty-permᴰ

  any-permᴰ : {l m : List Text} → Permᴰ l m → any (recognised n) l ≡ any (recognised n) m
  any-permᴰ Permᴰ.nil = refl
  any-permᴰ (Permᴰ.cons {a} {b} {l₁ = l} {l₂ = m} e p) = cc (ap (recognised n) e, any-permᴰ p)
  any-permᴰ (Permᴰ.swap {a} {b} {l = l} e f) = rw (← e, ← f) (ground arith)
  any-permᴰ (Permᴰ.trans p q) = any-permᴰ p ∙ any-permᴰ q

  -- The error that lines call for does not depend on their order.
  pub verdict-perm : {l m : List Text} → Perm l m → verdict n l ≡ verdict n m
  unfolding verdict
  verdict-perm p = cc (is_empty-perm p, ∥∥₁_elim p (Bool-set _ _) any-permᴰ)
